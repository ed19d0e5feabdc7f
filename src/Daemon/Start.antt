-- ===== src/Daemon/Start.antt =====
-- crates/coned/src/main.rs: the start of the daemon, up to the servers' threads.
pub mod Guarded
pub mod Reaches
use traffic_cone.Common.{ℕ, Option, [], Result, ok, err, ◌>>=◌, ◌>>◌, map_err, Text, Bytes, codes}
use traffic_cone.Common.Int.{ℤ}
use traffic_cone.Common.Host.{Env, get_store_path}
use traffic_cone.Store.Models.{StoreError}
use traffic_cone.Store.Crypto.{Crates}
use traffic_cone.Store.Handle.{Opening, Store, Disk, DeriveKey, open_store, unlock}
use traffic_cone.Store.Integrity.{verify_all}
use traffic_cone.Daemon.Hardening.{
  HardeningError, KernelCalls, check_environment, check_not_root, harden_process,
}
use traffic_cone.Daemon.Routing.{load_known_hashes}
use traffic_cone.Daemon.Ipc.{IpcServer}

-- The steps of `main` that end it, with the error that they end it with.
pub data StartError : Type 0 where
  environment_check root_check hardening : HardeningError → StartError
  store_path passphrase_prompt : Text → StartError
  unlock_failed integrity_check known_hashes_failed : StoreError → StartError

-- What the process finds around it. `files` gives the bytes of a file, and `opening` is what
-- an unlocking of the store meets.
pub record Host : Type 0 where
  pub env : Env
  pub uid : ℕ
  pub calls : KernelCalls
  pub create_dir_all : Text → Result Text (Unit {0})
  pub read_password : Result Text Text
  pub files : Text → Option Bytes
  pub opening : Opening
  pub now : ℤ

unfoldable pub prompt_passphrase : Host → Result Text Text
prompt_passphrase h = elim (h.env (codes "CONE_PASSPHRASE")) [
  | ok pass ↦ ok pass
  | err e ↦ h.read_password
]

-- Steps 1 to 3, the path of the store and the passphrase.
unfoldable pub prepare : Host → Result StartError (Text × Text)
unfolding check_environment check_not_root harden_process get_store_path prompt_passphrase
prepare h = do
  _ ← map_err environment_check (check_environment h.env)
  _ ← map_err root_check (check_not_root h.uid)
  _ ← map_err hardening (harden_process h.calls)
  path ← map_err store_path (get_store_path h.env h.create_dir_all)
  pass ← map_err passphrase_prompt (prompt_passphrase h)
  ok (path, pass)

abbrev pub Started : Type 0
Started = Store × Result StartError IpcServer

-- A step on the store, followed by the rest of `main` unless it fails.
abbrev pub and_then :
    (StoreError → StartError) → Store × Result StoreError (Unit {0}) → (Store → Started) → Started
and_then wrap (s, ok u) next = next s
and_then wrap (s, err e) next = (s, err (wrap e))

module _ (c : Crates) (derive_key : DeriveKey) where
  -- Step 6 and the server that step 7 starts on the store; both servers share the store.
  abbrev pub serve_store : Store → Started
  serve_store s = (
    s,
    map_err known_hashes_failed (load_known_hashes s) >>= λ known.
        ok (record { store = s; cache = []; known_hashes = known }),
  )

  -- Steps 4 to 6.
  unfoldable pub start_store : Host → Text × Text → Disk → Started
  start_store h (path, pass) disk =
      and_then unlock_failed (unlock derive_key h.opening pass (open_store path disk))
        λ s. and_then integrity_check (verify_all c h.files h.now s) serve_store

  -- The store's files change on failures too, so that they come back beside the result.
  unfoldable pub main : Host → Disk → Disk × Result StartError IpcServer
  unfolding prepare start_store
  main h disk = elim (prepare h) [
    | err e ↦ (disk, err e)
    | ok opened ↦ let (s, started) = start_store h opened disk in (s.disk, started)
  ]
