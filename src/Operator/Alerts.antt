-- ===== src/Operator/Alerts.antt =====
-- Lemmas on the leases of the alerts of internal/store/verification_operator.go.
use self_organizing_multi_ag.Base.{ℕ, ◌+◌, String}
use self_organizing_multi_ag.Db.{Db, AlertRow}
use self_organizing_multi_ag.Table.{select}
use self_organizing_multi_ag.Operator.{exhausted, add_alerts}

abbrev with_alerts : ℕ → Db → Db
with_alerts now db = record db {
  verification_alerts =
      add_alerts (select (exhausted db now) db.verification_jobs) db.verification_alerts;
}

abbrev leased_alert : String → ℕ → AlertRow → AlertRow
leased_alert token now a = record a { token = token; lease_until = now + 120 }
