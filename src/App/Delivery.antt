-- ===== src/App/Delivery.antt =====
-- What the engine sends: exactly the transactions that are due in its turns.
use base_execution_engine.Base.Text.{Text}
use base_execution_engine.App.Steps.{App}
use base_execution_engine.App.Sends.{Sends}
