-- ===== src/Store/Backup/Keeps.antt =====
-- Making and restoring a backup keep the constraints of `IsSound`.
use traffic_cone.Common.{ℕ, suc, Bool, true, false, List, [], ◌∷◌, Text, Bytes}
use traffic_cone.Store.Handle.{Store}
use traffic_cone.Store.Crypto.{Crates}
use traffic_cone.Store.Db.Sound.{IsSound, sound_rules}
use traffic_cone.Store.Db.{Db}
use traffic_cone.Store.Exec.{KeepsDb, keeps_rules, KeepsDb-sql, KeepsDb-bind, KeepsDb-done, Exec}
use traffic_cone.Store.Models.{App, SshRoute}
use traffic_cone.Store.Backup.{
  BackupCrates, BackupPayload, BackupCert, BackupSshKey, BackupCaCert, BackupRoute,
}
use traffic_cone.Store.Backup.Restore.{
  RestoreDraws, restore_backup, restore_payload, restore_ssh_key, restore_cert, restore_ssh_route,
  restore_route, restore_app, restore_ca_cert, unless, restore_each,
}

KeepsDb-restore_each :
    {A : Type 0} {P : Db → Type 0} (f : ℕ → A → Exec Bool) (i : ℕ) (xs : List A)
    → ((j : ℕ) (x : A) → KeepsDb P (f j x))
    → KeepsDb P (restore_each f i xs)
unfolding restore_each
KeepsDb-restore_each f i [] k = KeepsDb-done 0
KeepsDb-restore_each f i (x ∷ xs) k =
    KeepsDb-bind _ _ (k i x)
      (λ restored. KeepsDb-bind _ _ (KeepsDb-restore_each f (suc i) xs k) (λ n. KeepsDb-done _))

KeepsDb-unless :
    {P : Db → Type 0} (present : Bool) (insert : Exec (Unit {0}))
    → KeepsDb P insert
    → KeepsDb P (unless present insert)
KeepsDb-unless true insert k = KeepsDb-done false
KeepsDb-unless false insert k = KeepsDb-bind _ _ k (λ _. KeepsDb-done true)

ruleset loop_rules = (keeps_rules, KeepsDb-sql, KeepsDb-unless, sound_rules)

restore_ca_cert-KeepsDb : (i : ℕ) (x : BackupCaCert) → KeepsDb IsSound (restore_ca_cert i x)
unfolding restore_ca_cert
restore_ca_cert-KeepsDb i x = search loop_rules depth 20

restore_app-KeepsDb : (i : ℕ) (x : App) → KeepsDb IsSound (restore_app i x)
unfolding restore_app
restore_app-KeepsDb i x = search loop_rules depth 20

restore_route-KeepsDb : (i : ℕ) (x : BackupRoute) → KeepsDb IsSound (restore_route i x)
unfolding restore_route
restore_route-KeepsDb i x = search loop_rules depth 20

restore_ssh_route-KeepsDb : (i : ℕ) (x : SshRoute) → KeepsDb IsSound (restore_ssh_route i x)
unfolding restore_ssh_route
restore_ssh_route-KeepsDb i x = search loop_rules depth 20

module _ (c : Crates) where
  restore_cert-KeepsDb :
      (key_id : ℕ → Text) (i : ℕ) (x : BackupCert) → KeepsDb IsSound (restore_cert c key_id i x)
  unfolding restore_cert
  restore_cert-KeepsDb key_id i x = search loop_rules depth 30

  restore_ssh_key-KeepsDb : (i : ℕ) (x : BackupSshKey) → KeepsDb IsSound (restore_ssh_key c i x)
  unfolding restore_ssh_key
  restore_ssh_key-KeepsDb i x = search loop_rules depth 20

  restore_payload-KeepsDb :
      (w : RestoreDraws) (payload : BackupPayload) → KeepsDb IsSound (restore_payload c w payload)
  unfolding restore_payload
  restore_payload-KeepsDb w payload =
      search
        (
          keeps_rules, KeepsDb-restore_each, restore_ca_cert-KeepsDb, restore_cert-KeepsDb,
          restore_ssh_key-KeepsDb, restore_app-KeepsDb, restore_route-KeepsDb,
          restore_ssh_route-KeepsDb,
        )
        depth 40

  -- Restoring any file, sound or not, under any passphrase keeps the constraints of `IsSound`,
  -- wherever the restoration stops.
  pub restore_backup-IsSound :
      (b : BackupCrates) (w : RestoreDraws) (backup_data : Bytes) (password : Text) (s : Store)
      → IsSound s.disk.db
      → IsSound (restore_backup c b w backup_data password s).0.disk.db
  unfolding restore_backup
  restore_backup-IsSound b w backup_data password s h =
      let keeps : KeepsDb IsSound (restore_backup c b w backup_data password) =
        search (keeps_rules, KeepsDb-sql, restore_payload-KeepsDb, sound_rules) depth 30 in
      keeps.at s h
