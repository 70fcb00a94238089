-- ===== src/Sse/Delivery.antt =====
-- sse/sse.go: what is sent arrives.
use fibr.Prelude.{
  ◌≡◌, refl, sym, ap, ◌∙◌, subst, Bool, true, false, Option, none, some, List, [], ◌∷◌, ◌++◌, arith,
  append_assoc, append_nil,
}
use fibr.Prelude.Bytes.{Bytes, split, Lacks, codes}
use fibr.Sse.{
  Writer, Event, Ending, sent, line_if, retry_line, head_lines, data_lines, encode, go_on,
  write_lines, with_payload, finish, event,
}
use fibr.Sse.Receiver.{
  Client, new_client, receive, Clean, flat, flat-append, split_lines, receive_data, receive_lines,
  gather-join_lines, receive_id_if, receive_name_if, receive_retry_if,
}

-- The text of an event.
abbrev pub frame : {Value : Type 0} → Event Value → Bytes → Bytes
frame e payload = flat (head_lines e) ++ flat (data_lines (split 10 payload))

abbrev named : Bytes → Bytes → Client
named id name = record { last_id = id; name = name; payload = none }

receive_payload :
    (id name payload : Bytes)
    → Lacks 13 payload
    → receive (named id name) (flat (data_lines (split 10 payload)))
      ≡ record { id = id; name = name; payload = payload } ∷ []
unfolding data_lines
receive_payload id name payload lacks =
    let (h, t, e, j, first, rest) = split_lines payload lacks in
    ap (λ lines. receive (named id name) (flat (data_lines lines))) e
    ∙ (receive_data (named id name) h (flat (data_lines t)) first
        ∙ (receive_lines (named id name) h t rest
            ∙ ap (λ s. record { id = id; name = name; payload = s } ∷ [])
                (gather-join_lines h t ∙ j)))

frame_parts :
    (a b c : List Bytes) (x : Bytes)
    → flat (a ++ (b ++ c)) ++ x ≡ flat a ++ (flat b ++ (flat c ++ x))
frame_parts a b c x = simp (flat-append, append_assoc)

receive-frame :
    {Value : Type 0} (e : Event Value) (payload : Bytes)
    → Clean e.id
    → Lacks 0 e.id
    → Clean e.name
    → Lacks 13 payload
    → receive new_client (frame e payload)
      ≡ record { id = e.id; name = e.name; payload = payload } ∷ []
unfolding head_lines
receive-frame e payload id no_nul name lacks =
    let behind = flat (data_lines (split 10 payload)) in
    let retry = flat (retry_line e.retry) ++ behind in
    ap (receive new_client) (
      frame_parts (line_if (codes "id: ") e.id) (line_if (codes "event: ") e.name)
        (retry_line e.retry) behind)
    ∙ (receive_id_if e.id (flat (line_if (codes "event: ") e.name) ++ retry) id no_nul
        ∙ (receive_name_if e.id e.name retry name
            ∙ (receive_retry_if (named e.id e.name) e.retry behind
                ∙ receive_payload e.id e.name payload lacks)))

-- A writer that keeps what is written, until it fails.
pub record Keeps (W : Writer) (view : W.State → Bytes) : Type 0 where
  pub view-write :
      (s : W.State) (b : Bytes) → (W.write s b).1 ≡ true → view (W.write s b).0 ≡ view s ++ b
  pub view-flush : (s : W.State) → (W.flush s).1 ≡ true → view (W.flush s).0 ≡ view s

module _ {Value : Type 0} (marshal : Value → Option Bytes) (W : Writer) (view : W.State → Bytes)
    (keeps : Keeps W view) where
  go_on_sent :
      (r : W.State × Bool) (k : W.State → W.State × Ending)
      → (go_on marshal W r k).1 ≡ sent
      → (r.1 ≡ true) × (go_on marshal W r k ≡ k r.0)
  go_on_sent (s, true) k h = (refl, refl)
  go_on_sent (s, false) k h = absurd (ground arith)

  -- Lines that are written without an error stand behind what was there.
  write_lines_sent :
      (lines : List Bytes) (k : W.State → W.State × Ending) (s : W.State)
      → (write_lines marshal W lines k s).1 ≡ sent
      → (s' : W.State) × (view s' ≡ view s ++ flat lines) × (write_lines marshal W lines k s ≡ k s')
  unfolding write_lines
  write_lines_sent [] k s h = (s, sym (append_nil (view s)), refl)
  write_lines_sent (line ∷ lines) k s h =
      let (fine, same) = go_on_sent (W.write s line) (λ s'. write_lines marshal W lines k s') h in
      let (s', there, rest) =
        write_lines_sent lines k (W.write s line).0 (subst (λ r. r.1 ≡ sent) same h) in
      (
        s',
        there
            ∙ (ap (λ v. v ++ flat lines) (keeps.view-write s line fine)
                ∙ append_assoc (view s) line (flat lines)),
        same ∙ rest,
      )

  finish_sent : (s : W.State) → (finish marshal W s).1 ≡ sent → view (finish marshal W s).0 ≡ view s
  finish_sent s h =
      let (fine, same) = go_on_sent (W.flush s) (λ s'. (s', sent)) h in
      ap (λ r. view r.0) same ∙ keeps.view-flush s fine

  event-frame :
      (e : Event Value) (payload : Bytes) (s : W.State)
      → encode marshal e.content ≡ some payload
      → (event marshal W e s).1 ≡ sent
      → view (event marshal W e s).0 ≡ view s ++ frame e payload
  unfolding event
  event-frame e payload s encoded h =
      let (s1, v1, e1) =
        write_lines_sent (head_lines e) (with_payload marshal W (encode marshal e.content)) s h in
      let start : with_payload marshal W (encode marshal e.content) s1
          ≡ write_lines marshal W (data_lines (split 10 payload)) (finish marshal W) s1 =
        ap (λ o. with_payload marshal W o s1) encoded in
      let (s2, v2, e2) =
        write_lines_sent (data_lines (split 10 payload)) (finish marshal W) s1
          (subst (λ r. r.1 ≡ sent) (e1 ∙ start) h) in
      let whole = e1 ∙ (start ∙ e2) in
      ap (λ r. view r.0) whole
      ∙ (finish_sent s2 (subst (λ r. r.1 ≡ sent) whole h)
          ∙ (v2
              ∙ (ap (λ v. v ++ flat (data_lines (split 10 payload))) v1
                  ∙ append_assoc (view s) (flat (head_lines e))
                      (flat (data_lines (split 10 payload))))))

-- If the identifier of an event has no line ends and no NUL, the name has no line ends, the payload has
-- no carriage return, and the event is sent without an error by a writer that keeps what is written, then what was added to the
-- stream reads, for a client of the standard, as one message with that identifier, name and payload.
pub event-receive :
    {Value : Type 0} (marshal : Value → Option Bytes) (W : Writer) (view : W.State → Bytes)
    (keeps : Keeps W view) (e : Event Value) (payload : Bytes) (s : W.State)
    → Clean e.id
    → Lacks 0 e.id
    → Clean e.name
    → Lacks 13 payload
    → encode marshal e.content ≡ some payload
    → (event marshal W e s).1 ≡ sent
    → (added : Bytes) × (view (event marshal W e s).0 ≡ view s ++ added)
      × (receive new_client added ≡ record { id = e.id; name = e.name; payload = payload } ∷ [])
event-receive marshal W view keeps e payload s id no_nul name lacks encoded done = (
  frame e payload,
  event-frame marshal W view keeps e payload s encoded done,
  receive-frame e payload id no_nul name lacks,
)
