-- ===== src/Server/Routes/Reachable.antt =====
-- The states that the server of tests/fake_matterbeam/server.py reaches from its first one, by
-- requests of its routes in any order.
use mathlib.Core.Path.{subst}
use dlt_matterbeam.Prelude.{
  ℕ, String, ◌≡◌, refl, sym, ap, ◌∙◌, true, Option, none, some, List, Dict, ◌==◌, arith, Bool-cases,
  Option-cases, inl, inr,
}
use dlt_matterbeam.Transport.Http.{Request}
use dlt_matterbeam.Server.{Server, Item, Knobs, done, Fault, IngestResult, init}
use dlt_matterbeam.Server.Lock.{set_item}
use dlt_matterbeam.Server.Lock.Frees.{AllFree, IsFree}
use dlt_matterbeam.Server.Registry.{
  register, found_pid, lookup_or_create, new_item, adopt, registry_key, submit_secrets,
}
use dlt_matterbeam.Server.Build.{create_upload_url, receive_upload, trigger_build, get_build_status}
use dlt_matterbeam.Server.State.{complete_load}
use dlt_matterbeam.Server.Ingest.Locks.{ingest-AllFree, put_dlt_state-AllFree}
use dlt_matterbeam.Server.Routes.{Draws}
use dlt_matterbeam.Server.Routes.Handler.{handle}
use dlt_matterbeam.Server.Ingest.{Call, Moment, ingest, replayed, ledger_key, count_duplicate}
use dlt_matterbeam.Server.Ingest.Replay.{ingest-old}
use dlt_matterbeam.Server.Routes.Recorded.{IsRecorded, IsRecorded-kept}
use dlt_matterbeam.Server.Routes.Kept.{IsKept, handle-keeps}

pub data Reachable (knobs : Knobs) (repr : Fault → String) (host : String) : Server → Type 0 where
  started : Reachable knobs repr host init
  served :
      (d : Draws) (r : Request) {s : Server}
      → Reachable knobs repr host s
      → Reachable knobs repr host (handle knobs repr host d r s).1

-- an operation that puts an item in place of another, with the lock of the same kind
set_item-AllFree :
    (pid : String) (item : Item) (s : Server)
    → item.invoke_semaphore ≡ 1
    → AllFree s
    → AllFree (set_item pid item s)
set_item-AllFree pid item s one free q = elim (Bool-cases (pid == q)) [
  | inl own ↦ rw (own) one
  | inr other ↦ rw (other) (free q)
]

free_at :
    (pid : String) (item : Item) (s : Server)
    → s.pids pid ≡ some item
    → AllFree s
    → item.invoke_semaphore ≡ 1
free_at pid item s there free = subst IsFree there (free pid)

adopt-semaphore :
    (kind : String) (item : Item) → (adopt kind item).invoke_semaphore ≡ item.invoke_semaphore
adopt-semaphore kind item = ground arith

found-AllFree :
    (kind pid : String) (o : Option Item) (s : Server)
    → s.pids pid ≡ o
    → AllFree s
    → AllFree (found_pid kind pid o s).1
found-AllFree kind pid none s there free = free
found-AllFree kind pid (some item) s there free =
    set_item-AllFree pid (adopt kind item) s
      (adopt-semaphore kind item ∙ free_at pid item s there free) free

created-AllFree :
    (key kind pid : String) (o : Option String) (s : Server)
    → AllFree s
    → AllFree (lookup_or_create key kind pid o s).1
unfolding new_item
created-AllFree key kind pid (some p) s free = found-AllFree kind p (s.pids p) s refl free
created-AllFree key kind pid none s free = set_item-AllFree pid (new_item kind) s refl free

-- the operations that ask for the item first
module _ (pid : String) (s : Server) (free : AllFree s) where
  submit-AllFree : (secrets : Dict String) → AllFree (submit_secrets pid secrets s).1
  unfolding submit_secrets
  submit-AllFree secrets = elim (Option-cases (s.pids pid)) [
    | inl missing ↦ rw (submit_secrets, missing) free
    | inr (item, there) ↦
        rw (submit_secrets, there) (set_item-AllFree pid _ s (free_at pid item s there free) free)
  ]

  upload-AllFree :
      (filename host token : String) → AllFree (create_upload_url pid filename host token s).1
  unfolding create_upload_url
  upload-AllFree filename host token = elim (Option-cases (s.pids pid)) [
    | inl missing ↦ rw (create_upload_url, missing) free
    | inr (item, there) ↦ rw (create_upload_url, there) free
  ]

  build-AllFree : AllFree (trigger_build pid s).1
  unfolding trigger_build
  build-AllFree = elim (Option-cases (s.pids pid)) [
    | inl missing ↦ rw (trigger_build, missing) free
    | inr (item, there) ↦
        rw (trigger_build, there) (set_item-AllFree pid _ s (free_at pid item s there free) free)
  ]

-- a build status only reads
get_build_status-state : (pid : String) (s : Server) → (get_build_status pid s).1 ≡ s
unfolding get_build_status
get_build_status-state pid s = elim (Option-cases (s.pids pid)) [
  | inl missing ↦ rw (get_build_status, missing) refl
  | inr (item, there) ↦ rw (get_build_status, there) refl
]

receive-AllFree :
    (token : String) (content : List ℕ) (s : Server)
    → AllFree s
    → AllFree (receive_upload token content s).1
unfolding receive_upload
receive-AllFree token content s free = elim (Option-cases (s.pending_uploads token)) [
  | inl unknown ↦ rw (receive_upload, unknown) free
  | inr (pending, known) ↦ rw (receive_upload, known) free
]

AllFree-kept : (knobs : Knobs) → IsKept knobs AllFree
unfolding register complete_load
AllFree-kept knobs = record {
  register = λ key dataset kind pid s.
      created-AllFree (registry_key key dataset) kind pid (s.registry (registry_key key dataset)) s;
  submit_secrets = λ pid secrets s free. submit-AllFree pid s free secrets;
  create_upload_url =
      λ pid filename host token s free. upload-AllFree pid s free filename host token;
  receive_upload = receive-AllFree;
  trigger_build = build-AllFree;
  get_build_status = λ pid s free. subst AllFree (sym (get_build_status-state pid s)) free;
  put_dlt_state = put_dlt_state-AllFree knobs;
  complete_load = λ pid load_id s free. free;
  ingest = ingest-AllFree knobs;
}

module _ (knobs : Knobs) (repr : Fault → String) (host : String) where
  reachable_keeps :
      (P : Server → Type 0) (s : Server)
      → IsKept knobs P
      → P init
      → Reachable knobs repr host s
      → P s
  reachable_keeps P _ kept first started = first
  reachable_keeps P _ kept first (served d r {s} reached) =
      handle-keeps knobs repr host d P kept r s (reachable_keeps P s kept first reached)

  -- Whatever requests have come to a server since its start, and in whatever order: no process is
  -- locked between two of them; and a chunk that is in the ledger has its result there, so that it
  -- is acknowledged when it comes again, with that result, marked as a duplicate, and with no change
  -- but to the count of the duplicates.
  pub Reachable-IsSound :
      (s : Server)
      → Reachable knobs repr host s
      → AllFree s
        × ((c : Call) (m : Moment)
            → s.ledger (ledger_key c) ≡ true
            → (r : IngestResult) × (s.ledger_results (ledger_key c) ≡ some r)
              × (ingest knobs c m s ≡ (done (record r { duplicate = true }), count_duplicate s)))
  Reachable-IsSound s reached =
      let recorded =
        reachable_keeps IsRecorded s (IsRecorded-kept knobs) (λ k h. absurd (cc)) reached in
      (
        reachable_keeps AllFree s (AllFree-kept knobs) (λ q. tt) reached,
        λ c m held.
            let (r, kept) = recorded (ledger_key c) held in
            (r, kept, ingest-old knobs c m s held ∙ ap (λ o. replayed knobs c m o s) kept),
      )
