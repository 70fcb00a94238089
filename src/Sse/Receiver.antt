-- ===== src/Sse/Receiver.antt =====
-- sse/sse.go: how a client reads a stream of events (the event stream of the HTML standard), and that
-- it gets what was sent.
use fibr.Prelude.{
  ℕ, ◌≡◌, refl, sym, ap, ◌∙◌, Bool, false, ◌||◌, Option, none, some, List, [], ◌∷◌, ◌++◌,
  if◌then◌else◌, ◌==◌, nat_cmp, contains, arith, All, append_assoc, append_nil, Bool-cases, inl,
  inr,
}
use fibr.Prelude.Int.{ℤ, pos, negsuc}
use fibr.Prelude.Bytes.{Bytes, codes, bytes_cmp, split, cut, Lacks}
use fibr.Prelude.Decimal.{format_ℕ, IsNumeral, format_ℕ-IsNumeral}
use fibr.Sse.{line_if, retry_line, data_lines}

abbrev ends_line : ℕ → Bool
ends_line c = c == 10 || c == 13

-- The lines that are complete.
unfoldable pub stream_lines : Bytes → Bytes → List Bytes
stream_lines line [] = []
stream_lines line (c ∷ s) =
    let rest = stream_lines (if ends_line c then [] else line ++ c ∷ []) s in
    if ends_line c then line ∷ rest else rest

pub record Message : Type 0 where
  pub id : Bytes
  pub name : Bytes
  pub payload : Bytes

-- The buffers of the client.
pub record Client : Type 0 where
  pub last_id : Bytes
  pub name : Bytes
  pub payload : Option Bytes

abbrev pub new_client : Client
new_client = record { last_id = []; name = []; payload = none }

abbrev more_data : Option Bytes → Bytes → Bytes
more_data none line = line
more_data (some old) line = old ++ 10 ∷ line

abbrev without_space : Bytes → Bytes
without_space [] = []
without_space (c ∷ s) = if c == 32 then s else c ∷ s

-- An identifier with a NUL is ignored.
abbrev set_field : Client → Bytes → Bytes → Client
set_field p name value =
    if name == codes "data"
    then record p { payload = some (more_data p.payload value) }
    else if name == codes "event"
    then record p { name = value }
    else if name == codes "id"
    then (if contains value 0 then p else record p { last_id = value })
    else p

abbrev read_field : Client → Bytes → Option (Bytes × Bytes) → Client
read_field p line none = set_field p line []
read_field p line (some (name, value)) = set_field p name (without_space value)

-- An empty line hands the event out, if it has data.
abbrev hand_out : Client → List Message
hand_out p = elim p.payload [
  | none ↦ []
  | some payload ↦ record { id = p.last_id; name = p.name; payload = payload } ∷ []
]

unfoldable pub interpret : Client → List Bytes → List Message
interpret p [] = []
interpret p ([] ∷ lines) = hand_out p ++ interpret (record p { name = []; payload = none }) lines
interpret p ((c ∷ s) ∷ lines) = interpret (read_field p (c ∷ s) (cut 58 (c ∷ s))) lines

-- A text without the ends of lines.
abbrev pub Clean : Bytes → Type 0
Clean s = All (λ c. ends_line c ≡ false) s

stream_lines-Clean :
    (line s rest : Bytes)
    → Clean s
    → stream_lines line (s ++ 10 ∷ rest) ≡ (line ++ s) ∷ stream_lines [] rest
unfolding stream_lines
stream_lines-Clean line [] rest h = rw append_nil refl
stream_lines-Clean line (c ∷ s) rest h =
    rw (h.0, stream_lines-Clean (line ++ c ∷ []) s rest h.1) (rw append_assoc refl)

unfoldable pub join_lines : List Bytes → Bytes
join_lines [] = []
join_lines (line ∷ []) = line
join_lines (line ∷ next ∷ lines) = line ++ 10 ∷ join_lines (next ∷ lines)

join_lines_push :
    (c : ℕ) (h : Bytes) (t : List Bytes) → join_lines ((c ∷ h) ∷ t) ≡ c ∷ join_lines (h ∷ t)
unfolding join_lines
join_lines_push c h [] = refl
join_lines_push c h (n ∷ t) = refl

-- The lines of a text without carriage returns: they are clean, and they make the text.
pub split_lines :
    (s : Bytes)
    → Lacks 13 s
    → (h : Bytes) × (t : List Bytes) × (split 10 s ≡ h ∷ t)
      × (join_lines (h ∷ t) ≡ s)
      × Clean h
      × All Clean t
unfolding split join_lines
split_lines [] lacks = ([], [], refl, refl, tt, tt)
split_lines (c ∷ s) lacks =
    let (h, t, e, j, first, rest) = split_lines s lacks.1 in
    elim (Bool-cases (c == 10)) [
      | inl ends ↦ ([], h ∷ t, rw (ends, e) refl, ground (arith, j, ends), tt, (first, rest))
      | inr stays ↦ (
        c ∷ h,
        t,
        rw (stays, e) refl,
        join_lines_push c h t ∙ ap (λ r. c ∷ r) j,
        (ground (arith, stays, lacks.0), first),
        rest,
      )
    ]

-- The text of the lines that are written.
abbrev pub flat : List Bytes → Bytes
flat [] = []
flat (line ∷ lines) = line ++ flat lines

unfoldable pub receive : Client → Bytes → List Message
receive p s = interpret p (stream_lines [] s)

abbrev with_data : Client → Bytes → Client
with_data p line = record p { payload = some (more_data p.payload line) }

pub receive_data :
    (p : Client) (line rest : Bytes)
    → Clean line
    → receive p ((codes "data: " ++ (line ++ 10 ∷ [])) ++ rest) ≡ receive (with_data p line) rest
unfolding receive interpret stream_lines cut
receive_data p line rest clean =
    rw (append_assoc line (10 ∷ []) rest, stream_lines-Clean (codes "data: ") line rest clean) refl

receive_name :
    (p : Client) (name rest : Bytes)
    → Clean name
    → receive p ((codes "event: " ++ (name ++ 10 ∷ [])) ++ rest)
      ≡ receive (record p { name = name }) rest
unfolding receive interpret stream_lines cut
receive_name p name rest clean =
    rw (append_assoc name (10 ∷ []) rest, stream_lines-Clean (codes "event: ") name rest clean) refl

contains-Lacks : (c : ℕ) (s : Bytes) → Lacks c s → contains s c ≡ false
contains-Lacks c [] lacks = refl
contains-Lacks c (b ∷ s) lacks = rw lacks.0 (contains-Lacks c s lacks.1)

receive_id :
    (p : Client) (id rest : Bytes)
    → Clean id
    → Lacks 0 id
    → receive p ((codes "id: " ++ (id ++ 10 ∷ [])) ++ rest)
      ≡ receive (record p { last_id = id }) rest
unfolding receive interpret stream_lines cut
receive_id p id rest clean lacks =
    rw (append_assoc id (10 ∷ []) rest, stream_lines-Clean (codes "id: ") id rest clean)
      (ap (λ b. interpret (if b then p else record p { last_id = id }) (stream_lines [] rest))
        (contains-Lacks 0 id lacks))

receive_retry :
    (p : Client) (n rest : Bytes)
    → Clean n
    → receive p ((codes "retry: " ++ (n ++ 10 ∷ [])) ++ rest) ≡ receive p rest
unfolding receive interpret stream_lines cut
receive_retry p n rest clean =
    rw (append_assoc n (10 ∷ []) rest, stream_lines-Clean (codes "retry: ") n rest clean) refl

abbrev gather : Bytes → List Bytes → Bytes
gather old [] = old
gather old (line ∷ lines) = gather (old ++ 10 ∷ line) lines

gather-append : (a b : Bytes) (lines : List Bytes) → gather (a ++ b) lines ≡ a ++ gather b lines
gather-append a b [] = refl
gather-append a b (line ∷ lines) =
    ap (λ s. gather s lines) (append_assoc a b (10 ∷ line)) ∙ gather-append a (b ++ 10 ∷ line) lines

pub gather-join_lines : (h : Bytes) (t : List Bytes) → gather h t ≡ join_lines (h ∷ t)
unfolding join_lines
gather-join_lines h [] = refl
gather-join_lines h (n ∷ t) =
    gather-append h (10 ∷ n) t
    ∙ ap (λ s. h ++ s) (gather-append (10 ∷ []) n t ∙ ap (λ s. 10 ∷ s) (gather-join_lines n t))

receive_end :
    (p : Client) (old : Bytes)
    → receive (record p { payload = some old }) (10 ∷ [])
      ≡ record { id = p.last_id; name = p.name; payload = old } ∷ []
unfolding receive interpret stream_lines
receive_end p old = refl

-- What the lines of a payload do: each is one line of data, and the last one hands the event out.
pub receive_lines :
    (p : Client) (old : Bytes) (lines : List Bytes)
    → All Clean lines
    → receive (record p { payload = some old }) (flat (data_lines lines))
      ≡ record { id = p.last_id; name = p.name; payload = gather old lines } ∷ []
unfolding data_lines
receive_lines p old [] clean = receive_end p old
receive_lines p old (line ∷ lines) clean =
    receive_data (record p { payload = some old }) line (flat (data_lines lines)) clean.0
    ∙ receive_lines p (old ++ 10 ∷ line) lines clean.1

pub receive_id_if :
    (id rest : Bytes)
    → Clean id
    → Lacks 0 id
    → receive new_client (flat (line_if (codes "id: ") id) ++ rest)
      ≡ receive (record new_client { last_id = id }) rest
receive_id_if [] rest clean lacks = refl
receive_id_if (c ∷ id) rest clean lacks =
    ap (λ s. receive new_client (s ++ rest)) (append_nil (codes "id: " ++ ((c ∷ id) ++ 10 ∷ [])))
    ∙ receive_id new_client (c ∷ id) rest clean lacks

pub receive_name_if :
    (id name rest : Bytes)
    → Clean name
    → receive (record new_client { last_id = id }) (flat (line_if (codes "event: ") name) ++ rest)
      ≡ receive (record new_client { last_id = id; name = name }) rest
receive_name_if id [] rest clean = refl
receive_name_if id (c ∷ name) rest clean =
    ap (λ s. receive (record new_client { last_id = id }) (s ++ rest))
      (append_nil (codes "event: " ++ ((c ∷ name) ++ 10 ∷ [])))
    ∙ receive_name (record new_client { last_id = id }) (c ∷ name) rest clean

numeral-Clean : (s : Bytes) → IsNumeral s → Clean s
numeral-Clean [] h = tt
numeral-Clean (c ∷ s) h = (ground (arith, h.0), numeral-Clean s h.1)

pub receive_retry_if :
    (p : Client) (retry : ℤ) (rest : Bytes)
    → receive p (flat (retry_line retry) ++ rest) ≡ receive p rest
receive_retry_if p (negsuc n) rest = refl
receive_retry_if p (pos n) rest = elim (Bool-cases (n == 0)) [
  | inl never ↦ rw never refl
  | inr waits ↦ rw waits (
      ap (λ s. receive p (s ++ rest)) (append_nil (codes "retry: " ++ (format_ℕ n ++ 10 ∷ [])))
      ∙ receive_retry p (format_ℕ n) rest (numeral-Clean (format_ℕ n) (format_ℕ-IsNumeral n)))
]

pub flat-append : (ls ms : List Bytes) → flat (ls ++ ms) ≡ flat ls ++ flat ms
flat-append [] ms = refl
flat-append (l ∷ ls) ms =
    ap (λ s. l ++ s) (flat-append ls ms) ∙ sym (append_assoc l (flat ls) (flat ms))
