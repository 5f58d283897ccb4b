-- ===== src/Scenario/Histories.antt =====
-- The pages of the attempts of Start.antt's run.
use agent_reliability_runtim.Prelude.{◌≡◌, some, take}
use agent_reliability_runtim.Prelude.Result.{ok}
use agent_reliability_runtim.Runs.History.{page_size, page, attempt_history}
use agent_reliability_runtim.Runs.History.Order.{Distinct, rest_from}
use agent_reliability_runtim.Runs.History.Pages.{history, page_after}
use agent_reliability_runtim.System.Ledger.{Reach-Ledger}
use agent_reliability_runtim.Scenario.Start.{deployment, succeeded_at_last}
use agent_reliability_runtim.Scenario.Life.{first_attempt_ended, life, reached}

attempts-Distinct : Distinct attempt_history succeeded_at_last.attempts
attempts-Distinct = (Reach-Ledger deployment succeeded_at_last reached).unique

page_after_example :
    page attempt_history 100 1 (some first_attempt_ended.id) succeeded_at_last.attempts
    ≡ ok (
        take
          (page_size attempt_history 1)
          (rest_from 0 (history attempt_history 100 succeeded_at_last.attempts)))
page_after_example =
    page_after attempt_history 100 1 succeeded_at_last.attempts 0 first_attempt_ended
      attempts-Distinct life.first_found
