-- ===== src/Model.antt =====
-- crates/reprocut-core/src/model.rs: the verdict on one candidate execution.
pub data CandidateVerdict : Type 0 where
  preserved rejected inconclusive : CandidateVerdict

-- `OracleMode`
pub data OracleMode : Type 0 where
  automatic regex exit_zero : OracleMode

-- `DiagnosticChannel`
pub data DiagnosticChannel : Type 0 where
  auto stderr stdout combined : DiagnosticChannel
