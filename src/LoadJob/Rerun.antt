-- ===== src/LoadJob/Rerun.antt =====
-- A load job that runs again, as dlt does with one that it has not seen complete: what the run of
-- src/dlt_matterbeam/load_job.py comes to over a store that remembers the chunks it took.
use mathlib.Core.Path.{subst}
use dlt_matterbeam.Prelude.{
  ℕ, suc, ◌+◌, String, ◌≡◌, refl, sym, ap, ◌∙◌, Bool, true, false, not, ◌||◌, Option, none, some,
  List, [], ◌∷◌, ◌++◌, is_empty, nat_beq, if◌then◌else◌,
}
use dlt_matterbeam.Json.{Json, Row}
use dlt_matterbeam.Exec.{Result, ok, err}
use dlt_matterbeam.Action.{Action, continue, pure, raise, lift, ◌>>=◌, ◌>>◌}
use dlt_matterbeam.Envelope.Table.{Degraded, check_disposition, dedup_sort}
use dlt_matterbeam.Envelope.Rows.{Rows, done, raised, yield, iter_stripped_rows}
use dlt_matterbeam.LoadJob.{
  Chunk, LoadConfig, Limits, Job, is_full, chunk_of, columns, ordered, warn_if, send_rows, run,
}

-- What a state remembers: `Keeps s s'` where `s'` has all that `s` had, and `Same s s'` where nothing
-- that is stored has changed.
pub record Memory (S : Type 0) : Type 1 where
  pub Keeps : S → S → Type 0
  pub keeps : (s : S) → Keeps s s
  pub then_keeps : (s t u : S) → Keeps s t → Keeps t u → Keeps s u
  pub Same : S → S → Type 0
  pub same : (s : S) → Same s s
  pub then_same : (s t u : S) → Same s t → Same t u → Same s u

module _ {S : Type 0} (memory : Memory S) where
  -- an action that forgets nothing, and stores nothing new when it comes again after it returned
  pub record IsReplayable (a : Action S (Unit {0})) : Type 0 where
    pub grows : (s : S) → memory.Keeps s (a s).1
    pub again :
        (s s' : S)
        → (a s).0 ≡ ok tt
        → memory.Keeps (a s).1 s'
        → ((a s').0 ≡ ok tt) × memory.Same s' (a s').1

  pub pure-IsReplayable : IsReplayable (pure tt)
  pure-IsReplayable = record {
    grows = memory.keeps;
    again = λ s s' returned kept. (refl, memory.same s');
  }

  pub raise-IsReplayable : (e : _) → IsReplayable (raise e)
  raise-IsReplayable e = record { grows = memory.keeps; again = λ s s' returned kept. absurd (cc) }

  continue-grows :
      (r : Result (Unit {0})) (b : Action S (Unit {0})) (s : S)
      → IsReplayable b
      → memory.Keeps s (continue r (λ _. b) s).1
  continue-grows (ok u) b s after = after.grows s
  continue-grows (err e) b s after = memory.keeps s

  continue-again :
      (r : Result (Unit {0})) (b : Action S (Unit {0})) (s : S)
      → (continue r (λ _. b) s).0 ≡ ok tt
      → (r ≡ ok tt) × ((b s).0 ≡ ok tt) × (continue r (λ _. b) s ≡ b s)
  continue-again (ok u) b s returned = (refl, returned, refl)
  continue-again (err e) b s returned = absurd (cc)

  >>-again :
      (a b : Action S (Unit {0})) (s s' : S)
      → IsReplayable a
      → IsReplayable b
      → ((a >> b) s).0 ≡ ok tt
      → memory.Keeps ((a >> b) s).1 s'
      → (((a >> b) s').0 ≡ ok tt) × memory.Same s' ((a >> b) s').1
  >>-again a b s s' first after returned kept =
      let t = (a s).1 in
      let (one, two, at) = continue-again (a s).0 b t returned in
      let end = subst (λ x. memory.Keeps x.1 s') at kept in
      let (one', same_one) = first.again s s' one (memory.then_keeps t _ s' (after.grows t) end) in
      let t' = (a s').1 in
      let (two', same_two) =
        after.again t t' two (memory.then_keeps (b t).1 s' t' end (first.grows s')) in
      let at' : (a >> b) s' ≡ b t' = ap (λ r. continue r (λ _. b) t') one' in
      (
        ap (λ x. x.0) at' ∙ two',
        subst (λ x. memory.Same s' x.1) (sym at')
            (memory.then_same s' t' (b t').1 same_one same_two),
      )

  pub >>-IsReplayable :
      (a b : Action S (Unit {0})) → IsReplayable a → IsReplayable b → IsReplayable (a >> b)
  >>-IsReplayable a b first after = record {
    grows =
        λ s. memory.then_keeps s (a s).1 _ (first.grows s) (continue-grows (a s).0 b (a s).1 after);
    again = λ s s'. >>-again a b s s' first after;
  }

  if-IsReplayable :
      (b : Bool) (x y : Action S (Unit {0}))
      → IsReplayable x
      → IsReplayable y
      → IsReplayable (if b then x else y)
  if-IsReplayable true x y hx hy = hx
  if-IsReplayable false x y hx hy = hy

  module _ (row_bytes : Row → ℕ) (limits : Limits) (send : List Row → ℕ → Action S (Unit {0}))
      (replayable : (rows : List Row) (seq : ℕ) → IsReplayable (send rows seq)) where
    send_rows-IsReplayable :
        (rows : Rows) (pending : List Row) (pending_bytes seq : ℕ)
        → IsReplayable (send_rows row_bytes limits send rows pending pending_bytes seq)
    unfolding send_rows
    send_rows-IsReplayable done pending pending_bytes seq =
        if-IsReplayable (not (is_empty pending) || nat_beq seq 0) _ _ (replayable pending seq)
          pure-IsReplayable
    send_rows-IsReplayable (raised e) pending pending_bytes seq = raise-IsReplayable e
    send_rows-IsReplayable (yield row rows) pending pending_bytes seq =
        let pending' = pending ++ row ∷ [] in
        let bytes' = pending_bytes + row_bytes row in
        if-IsReplayable (is_full limits pending' bytes') _ _
          (>>-IsReplayable (send pending' seq) _ (replayable pending' seq)
            (send_rows-IsReplayable rows [] 0 (suc seq)))
          (send_rows-IsReplayable rows pending' bytes' seq)

  continue_lift-IsReplayable :
      {A : Type 0} (r : Result A) (f : A → Action S (Unit {0}))
      → ((x : A) → IsReplayable (f x))
      → IsReplayable (lift r >>= f)
  continue_lift-IsReplayable (ok x) f each = each x
  continue_lift-IsReplayable (err e) f each = raise-IsReplayable e

  warn_if-IsReplayable :
      (warn : Degraded → Action S (Unit {0})) (d : Option Degraded)
      → ((d : Degraded) → IsReplayable (warn d))
      → IsReplayable (warn_if warn d)
  warn_if-IsReplayable warn none each = pure-IsReplayable
  warn_if-IsReplayable warn (some d) each = each d

  module _ (custom_pua_remove : String → String) (loads : String → Option Json)
      (row_bytes : Row → ℕ) (warn : Degraded → Action S (Unit {0}))
      (send_chunk : Chunk → Action S (Unit {0})) where
    -- a job is replayable where its chunks and its warning are
    pub run-IsReplayable :
        (config : LoadConfig) (job : Job)
        → ((d : Degraded) → IsReplayable (warn d))
        → ((chunk : Chunk) → IsReplayable (send_chunk chunk))
        → IsReplayable (run custom_pua_remove loads row_bytes warn send_chunk config job)
    unfolding run
    run-IsReplayable config job warns sends =
        let rows =
          ordered (dedup_sort job.table)
            (iter_stripped_rows custom_pua_remove loads (columns job.table) job.lines) in
        let send = λ (rows : List Row) (seq : ℕ). send_chunk (chunk_of config job rows seq) in
        continue_lift-IsReplayable (check_disposition job.table) _ λ degraded.
          >>-IsReplayable (warn_if warn degraded) _ (warn_if-IsReplayable warn degraded warns) (
            continue_lift-IsReplayable rows _ λ rs.
              send_rows-IsReplayable row_bytes config.limits send
                (λ rows seq. sends (chunk_of config job rows seq)) rs [] 0 0)
