-- ===== src/TmqSession/Live/Fetches.antt =====
-- The handlers that read the message do nothing else, and only when the session has it.
use taosadapter.Common.{
  ℕ, ◌≡◌, ◌≢◌, refl, true, List, ◌++◌, length, Option, none, some, ◌==◌, if_both, Option-cases, inl,
  inr, arith,
}
use taosadapter.TmqSession.State.{
  Text, fetch_raw_block, get_raw, get_json_meta, Tmq, Read, Reason, Event, Answers,
}
use taosadapter.TmqSession.Fetch.{
  refusal, wrapper_message, fetch_answer, fetch_data, fetch_message, send_block, fetch_block,
  send_raw, raw_data, fetch_raw, raw_data_new, fetch_raw_new, meta_answer, meta_data,
  fetch_json_meta, can_get_data, raw_buffer, raw_error, ws_fetch_raw_block_message, raw_error_new,
}
use taosadapter.TmqSession.Live.Good.{Same}
use taosadapter.TmqSession.Live.Quiet.{quiet, all_quiet, all_quiet-append}

-- What a section does that keeps the consumer and the pointer.
abbrev pub Calm : Tmq → Tmq × List Event → Type 0
Calm s (s', es) = (all_quiet s es ≡ true) × Same s s'

refusal-pointer :
    (other : Reason) (id : ℕ) (s : Tmq) → refusal other id s ≡ none → s.message.pointer ≢ 0
refusal-pointer other id s h = ground arith

wrapper_message-quiet {ℓ} :
    {A : Type ℓ} (s : Tmq) (r : Read) (x : A)
    → s.message.pointer ≢ 0
    → all_quiet s (wrapper_message s r x).1 ≡ true
wrapper_message-quiet s r x h = ground arith

-- A handler with a refusal.
refused {ℓ} :
    {A : Type ℓ} (P : A → Type 0) (handler : Option Reason → A) (s : Tmq) (other : Reason) (id : ℕ)
    → ((reason : Reason) → P (handler (some reason)))
    → (s.message.pointer ≢ 0 → P (handler none))
    → P (handler (refusal other id s))
refused P handler s other id h k = elim (Option-cases (refusal other id s)) [
  | inl e ↦ rw e (k (refusal-pointer other id s e))
  | inr (reason, e) ↦ rw e (h reason)
]

fetch_answer-Calm :
    (a : Answers) (req_id id : ℕ) (s : Tmq) (r : Option ℕ)
    → s.message.pointer ≢ 0
    → Calm s (fetch_answer a req_id id s r)
fetch_answer-Calm a req_id id s none h = (refl, (refl, refl, refl, refl, refl))
fetch_answer-Calm a req_id id s (some code) h =
    if_both (Calm s) (code == 0) _ _
      (λ z.
        if_both (Calm s) (a.rows == 0) _ _ (λ z. (refl, (refl, refl, refl, refl, refl)))
          λ z. (ground arith, (refl, refl, refl, refl, refl)))
      λ z. (refl, (refl, refl, refl, refl, refl))

-- A call, and then what the handler does with its answer.
call_Calm {ℓ} :
    {A : Type ℓ} (s : Tmq) (r : Read) (x : A) (rest : Option A → Tmq × List Event)
    → s.message.pointer ≢ 0
    → ((o : Option A) → Calm s (rest o))
    → Calm s (
      (rest (wrapper_message s r x).0).0,
      (wrapper_message s r x).1 ++ (rest (wrapper_message s r x).0).1,
    )
call_Calm s r x rest h k =
    let (q, same) = k (wrapper_message s r x).0 in
    (
      all_quiet-append s (wrapper_message s r x).1 (rest (wrapper_message s r x).0).1
          (wrapper_message-quiet s r x h) q,
      same,
    )

pub fetch_message-Calm :
    (a : Answers) (req_id id : ℕ) (s : Tmq) → Calm s (fetch_message a req_id id s)
unfolding fetch_message
fetch_message-Calm a req_id id s =
    refused (Calm s) (fetch_data a req_id id s) s _ id
      (λ reason. (refl, (refl, refl, refl, refl, refl)))
      λ h.
        if_both (Calm s) (can_get_data s.message.type) _ _
          (λ z.
            call_Calm s fetch_raw_block a.code (fetch_answer a req_id id s) h
              λ o. fetch_answer-Calm a req_id id s o h)
          λ z. (refl, (refl, refl, refl, refl, refl))

pub fetch_block-Calm : (a : Answers) (req_id id : ℕ) (s : Tmq) → Calm s (fetch_block a req_id id s)
unfolding fetch_block
fetch_block-Calm a req_id id s =
    refused (Calm s) (send_block a req_id id s) s _ id
      (λ reason. (refl, (refl, refl, refl, refl, refl)))
      λ h.
        if_both (Calm s) (can_get_data s.message.type) _ _
          (λ z.
            if_both (Calm s) (length s.message.buffer == 0) _ _
              (λ z. (refl, (refl, refl, refl, refl, refl)))
              λ z. (refl, (refl, refl, refl, refl, refl)))
          λ z. (refl, (refl, refl, refl, refl, refl))

send_raw-Calm :
    (buffer : List ℕ) (error : ℕ → Event) (s : Tmq) (r : Option ℕ)
    → ((code : ℕ) → quiet s (error code) ≡ true)
    → Calm s (send_raw buffer error s r)
send_raw-Calm buffer error s none h = (refl, (refl, refl, refl, refl, refl))
send_raw-Calm buffer error s (some code) h =
    let q = h code in
    if_both (Calm s) (code == 0) _ _ (λ z. (refl, (refl, refl, refl, refl, refl)))
      λ z. (ground arith, (refl, refl, refl, refl, refl))

pub fetch_raw-Calm : (a : Answers) (req_id id : ℕ) (s : Tmq) → Calm s (fetch_raw a req_id id s)
unfolding fetch_raw
fetch_raw-Calm a req_id id s =
    refused (Calm s) (raw_data a req_id id s) s _ id
      (λ reason. (refl, (refl, refl, refl, refl, refl)))
      λ h.
        call_Calm s get_raw a.code
          (send_raw (raw_buffer a req_id id s.message.buffer) (raw_error a req_id id) s) h
          λ o.
            send_raw-Calm (raw_buffer a req_id id s.message.buffer) (raw_error a req_id id) s o
              λ code. refl

pub fetch_raw_new-Calm :
    (a : Answers) (req_id id : ℕ) (s : Tmq) → Calm s (fetch_raw_new a req_id id s)
unfolding fetch_raw_new
fetch_raw_new-Calm a req_id id s =
    refused (Calm s) (raw_data_new a req_id id s) s _ id
      (λ reason. (refl, (refl, refl, refl, refl, refl)))
      λ h.
        call_Calm s get_raw a.code
          (send_raw (ws_fetch_raw_block_message a req_id id s.message.buffer)
            (raw_error_new a req_id id) s)
          h
          λ o.
            send_raw-Calm (ws_fetch_raw_block_message a req_id id s.message.buffer)
              (raw_error_new a req_id id) s o λ code. refl

meta_answer-quiet :
    (req_id id : ℕ) (s : Tmq) (r : Option (Option Text))
    → all_quiet s (meta_answer req_id id r) ≡ true
meta_answer-quiet req_id id s none = refl
meta_answer-quiet req_id id s (some x) = refl

pub fetch_json_meta-quiet :
    (a : Answers) (req_id id : ℕ) (s : Tmq) → all_quiet s (fetch_json_meta a req_id id s) ≡ true
unfolding fetch_json_meta
fetch_json_meta-quiet a req_id id s =
    refused (λ es. all_quiet s es ≡ true) (meta_data a req_id id s) s _ id (λ reason. refl)
      λ h.
        all_quiet-append s (wrapper_message s get_json_meta a.json_meta).1 _
          (wrapper_message-quiet s get_json_meta a.json_meta h)
          (meta_answer-quiet req_id id s (wrapper_message s get_json_meta a.json_meta).0)
