-- ===== src/Transport/Http/Conflicts.antt =====
-- What `HttpTransport` of src/dlt_matterbeam/transport.py makes of conflicts and of missing things.
use dlt_matterbeam.Prelude.{
  ◌<◌, String, ◌≡◌, ◌≢◌, Option, none, List, [], ◌∷◌, arith, Dict, inl, inr,
}
use dlt_matterbeam.Json.{Json, Row}
use dlt_matterbeam.Exec.{Result, ok, err, conflict, attribute_error, Result-cases}
use dlt_matterbeam.Action.{Action, continue}
use dlt_matterbeam.Envelope.Record.{build_wire_record}
use dlt_matterbeam.Envelope.Record.Bodies.{build_wire_record-err_iff}
use dlt_matterbeam.LoadJob.{Chunk}
use dlt_matterbeam.Transport.Http.Retry.{send_request_settle}
use dlt_matterbeam.Transport.Http.{
  Method, Body, Request, Response, Net, HttpTransport, missing, verdict, request, send_request,
  terminal_on_conflict, conflict_terminal, stale_ignored, register, get_dlt_state, put_dlt_state,
  send_chunk, complete_load, reply_json, subscript, as_text, state_reply, wire_records, get_field,
}

-- the result is no bare `Conflict`
abbrev pub NoConflict : {A : Type 0} → Result A → Type 0
NoConflict r = (reason : Json) → r ≢ err (conflict reason)

conflict_terminal-NoConflict : {A : Type 0} (r : Result A) → NoConflict (conflict_terminal r)
conflict_terminal-NoConflict r reason h = ground arith

stale_ignored-NoConflict : {A : Type 0} (r : Result A) → NoConflict (stale_ignored r)
stale_ignored-NoConflict r reason h = ground arith

subscript-NoConflict : (j : Json) (k : String) → NoConflict (subscript j k)
subscript-NoConflict j k reason h = ground arith

get_field-NoConflict : (j : Json) (k : String) → NoConflict (get_field j k)
get_field-NoConflict j k reason h = ground arith

as_text-NoConflict : (j : Json) → NoConflict (as_text j)
as_text-NoConflict j reason h = ground arith

reply_json-NoConflict : (r : Option Response) → NoConflict (reply_json r)
reply_json-NoConflict r reason h = ground arith

state_reply-NoConflict : (r : Option Response) → NoConflict (state_reply r)
state_reply-NoConflict r reason h = ground arith

continue-NoConflict :
    {S A B : Type 0} (r : Result A) (f : A → Action S B) (s : S)
    → NoConflict r
    → ((a : A) (s' : S) → NoConflict (f a s').0)
    → NoConflict (continue r f s).0
continue-NoConflict (ok a) f s h k = k a s
continue-NoConflict (err e) f s h k = λ reason q. h reason (cc)

wire_records-NoConflict :
    (rows : List Row) (keys hard_delete : List String)
    → NoConflict (wire_records rows keys hard_delete)
unfolding wire_records
wire_records-NoConflict [] keys hard_delete reason h = ground arith
wire_records-NoConflict (row ∷ rows) keys hard_delete reason h =
    elim (Result-cases (build_wire_record row keys hard_delete)) [
      | inl (w, p) ↦ elim (Result-cases (wire_records rows keys hard_delete)) [
        | inl (ws, q) ↦ ground arith
        | inr (e, q) ↦ wire_records-NoConflict rows keys hard_delete reason (ground arith)
      ]
      | inr (e, p) ↦
          let (f, cause, _, _) = (build_wire_record-err_iff row keys hard_delete e).0 p in
          ground arith
    ]

module _ {P : Type 0} (respond : Request → P → Response × P) (t : HttpTransport) (n : Net P) where
  terminal-NoConflict :
      (m : Method) (path : List String) (headers : Dict String) (body : Body) (n : Net P)
      → NoConflict (terminal_on_conflict respond t m path headers body n).0
  unfolding terminal_on_conflict
  terminal-NoConflict m path headers body n =
      conflict_terminal-NoConflict (send_request respond t m path headers body n).0

  complete_load-NoConflict :
      (load_id : String) (pid : Option String)
      → NoConflict (complete_load respond t load_id pid n).0
  unfolding complete_load
  complete_load-NoConflict load_id pid =
      continue-NoConflict _ _ _ (terminal-NoConflict _ _ _ _ n) (λ _ _ reason h. cc)

  get_dlt_state-NoConflict : (pid : String) → NoConflict (get_dlt_state respond t pid n).0
  unfolding get_dlt_state
  get_dlt_state-NoConflict pid =
      continue-NoConflict _ _ _ (terminal-NoConflict _ _ _ _ n) (λ r _. state_reply-NoConflict r)

  put_dlt_state-NoConflict :
      (pid : String) (doc : Row) → NoConflict (put_dlt_state respond t pid doc n).0
  unfolding put_dlt_state
  put_dlt_state-NoConflict pid doc = stale_ignored-NoConflict (send_request respond t _ _ _ _ n).0

  register-NoConflict :
      (pipeline_key dataset_name : String)
      → NoConflict (register respond t pipeline_key dataset_name n).0
  unfolding register
  register-NoConflict pipeline_key dataset_name =
      continue-NoConflict _ _ _ (terminal-NoConflict _ _ _ _ n) λ r s.
        continue-NoConflict _ _ s (reply_json-NoConflict r) λ j s'.
          continue-NoConflict _ _ s' (subscript-NoConflict j "id") λ id _. as_text-NoConflict id

  send_chunk-NoConflict :
      (chunk : Chunk) (pid : Option String) → NoConflict (send_chunk respond t chunk pid n).0
  unfolding send_chunk
  send_chunk-NoConflict chunk pid =
      continue-NoConflict _ _ n (wire_records-NoConflict _ _ _) λ ws s.
        continue-NoConflict _ _ _ (terminal-NoConflict _ _ _ _ s) λ r s'.
          continue-NoConflict _ _ s' (reply_json-NoConflict r) λ j s''.
            continue-NoConflict _ _ s'' (subscript-NoConflict j "data") λ d s₃.
              continue-NoConflict _ _ s₃ (get_field-NoConflict d "segment_key")
                λ k _. as_text-NoConflict k

  -- No method lets a bare `Conflict` out: to its caller a conflict is a terminal failure, or, of the
  -- state write with a stale version, nothing.
  pub http-NoConflict :
      (pipeline_key dataset_name pid load_id : String) (some_pid : Option String) (doc : Row)
      (chunk : Chunk)
      → NoConflict (register respond t pipeline_key dataset_name n).0
        × NoConflict (get_dlt_state respond t pid n).0
        × NoConflict (put_dlt_state respond t pid doc n).0
        × NoConflict (send_chunk respond t chunk some_pid n).0
        × NoConflict (complete_load respond t load_id some_pid n).0
  http-NoConflict pipeline_key dataset_name pid load_id some_pid doc chunk = (
    register-NoConflict pipeline_key dataset_name,
    get_dlt_state-NoConflict pid,
    put_dlt_state-NoConflict pid doc,
    send_chunk-NoConflict chunk some_pid,
    complete_load-NoConflict load_id some_pid,
  )

verdict_404 : (r : Response) → r.status_code ≡ 404 → verdict r ≡ missing
unfolding verdict
verdict_404 r h = ground arith

-- What a 404 does. The ids are what the requests are made of, so the peer answers each of them.
module _ {P : Type 0} (respond : Request → P → Response × P) (t : HttpTransport) (n : Net P)
    (tries : 0 < t.max_409_retries)
    (absent : (r : Request) → (respond r n.peer).0.status_code ≡ 404) where
  send_request_absent :
      (m : Method) (path : List String) (headers : Dict String) (body : Body)
      → (send_request respond t m path headers body n).0 ≡ ok none
  send_request_absent m path headers body =
      let missed = verdict_404 (respond (request t m path headers body) n.peer).0 (absent _) in
      let (n', sent, _, _, _) =
        send_request_settle respond t m path headers body n 0 tt tries (rw missed λ h. cc) in
      rw (sent, missed)

  terminal_absent :
      (m : Method) (path : List String) (headers : Dict String) (body : Body)
      → (terminal_on_conflict respond t m path headers body n).0 ≡ ok none
  unfolding terminal_on_conflict
  terminal_absent m path headers body = rw (send_request_absent m path headers body)

  -- Where the peer answers 404, a registration and a chunk fail with `AttributeError`, as `None` is
  -- asked for its JSON, and a state is none; but a state write and the close of a load return as
  -- though the server had taken them.
  pub http_absent :
      (pipeline_key dataset_name pid load_id : String) (some_pid : Option String) (doc : Row)
      (chunk : Chunk) {ws : List Row}
      → wire_records chunk.rows chunk.keys chunk.hard_delete ≡ ok ws
      → ((register respond t pipeline_key dataset_name n).0 ≡ err attribute_error)
        × ((send_chunk respond t chunk some_pid n).0 ≡ err attribute_error)
        × ((get_dlt_state respond t pid n).0 ≡ ok none)
        × ((put_dlt_state respond t pid doc n).0 ≡ ok tt)
        × ((complete_load respond t load_id some_pid n).0 ≡ ok tt)
  unfolding register send_chunk get_dlt_state put_dlt_state complete_load
  http_absent pipeline_key dataset_name pid load_id some_pid doc chunk encoded = (
    rw (register, terminal_absent),
    rw (send_chunk, encoded, terminal_absent),
    rw (get_dlt_state, terminal_absent),
    rw (send_request_absent),
    rw (complete_load, terminal_absent),
  )
