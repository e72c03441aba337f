-- ===== src/Genwatch/LoadSource/Hysteresis.antt =====
-- The classification of the load source (`_derive_load_source` and
-- `_derive_load_source_from_telemetry` of GenWatch-main/backend/genwatch/services/state.py).
use complete_gen_project.Base.{ℕ, ◌≡◌, ◌↔◌, ◌⊎◌, ◌≤◌, ◌<◌, Option, some, arith}
use complete_gen_project.Companion.IoDriver.{Position, utility, generator}
use complete_gen_project.Genwatch.LoadSource.{
  EngineState, running, Electrical, AtsView, source_by_load, source_by_readings,
  derive_load_source_from_telemetry, derive_load_source,
}

-- While the engine runs and both readings are there, the load moves to the generator exactly if both
-- are at least at the upper thresholds (5 A, 2 kW), and back to the utility exactly if both are below
-- the lower ones (2 A, 1 kW); the classification is never anything else.
derive-thresholds :
    (current kw : ℕ) (prev : Position)
    → let next =
        derive_load_source_from_telemetry
          (record { avg_current = some current; total_kw = some kw })
          running in
      ((next utility ≡ generator) ↔ ((50 ≤ current) × (20 ≤ kw)))
      × ((next generator ≡ utility) ↔ ((current < 20) × (kw < 10)))
      × ((next prev ≡ utility) ⊎ (next prev ≡ generator))
unfolding derive_load_source_from_telemetry source_by_readings source_by_load
derive-thresholds current kw prev = ground arith

-- Derived again from the same readings, the source stays what it was.
pub derive_load_source-idempotent :
    (ats : Option AtsView) (r : Electrical) (engine : EngineState) (prev : Position)
    → derive_load_source ats r engine (derive_load_source ats r engine prev)
      ≡ derive_load_source ats r engine prev
unfolding derive_load_source derive_load_source_from_telemetry source_by_readings source_by_load
derive_load_source-idempotent ats r engine prev = ground arith
