-- ===== src/Sse.antt =====
-- sse/sse.go: the frames of a stream of events. The buffered writer is a parameter, and so is
-- `json.Marshal`.
pub mod Receiver
pub mod Delivery
mod Examples
use fibr.Prelude.{
  ℕ, Bool, true, false, Option, none, some, List, [], ◌∷◌, ◌++◌, map, if◌then◌else◌, ltb, ◌==◌,
  nat_cmp,
}
use fibr.Prelude.Int.{ℤ, pos, negsuc}
use fibr.Prelude.Bytes.{Bytes, codes, split}
use fibr.Prelude.Decimal.{format_ℕ}

pub record Writer : Type 1 where
  pub State : Type 0
  pub write : State → Bytes → State × Bool
  pub flush : State → State × Bool

pub data Content (Value : Type 0) : Type 0 where
  nothing : Content Value
  raw text bytes : Bytes → Content Value
  value : Value → Content Value

pub record Event (Value : Type 0) : Type 0 where
  pub id : Bytes
  pub name : Bytes
  pub content : Content Value
  pub retry : ℤ

pub data Ending : Type 0 where
  sent write_failed encode_failed : Ending

abbrev line_if : Bytes → Bytes → List Bytes
line_if prefix [] = []
line_if prefix (c ∷ s) = (prefix ++ ((c ∷ s) ++ 10 ∷ [])) ∷ []

abbrev retry_line : ℤ → List Bytes
retry_line (negsuc n) = []
retry_line (pos n) = if n == 0 then [] else (codes "retry: " ++ (format_ℕ n ++ 10 ∷ [])) ∷ []

-- What is written before the payload is encoded.
unfoldable pub head_lines : {Value : Type 0} → Event Value → List Bytes
head_lines e =
    line_if (codes "id: ") e.id ++ (line_if (codes "event: ") e.name ++ retry_line e.retry)

-- What is written for the payload, with the line that ends the event.
unfoldable pub data_lines : List Bytes → List Bytes
data_lines [] = (10 ∷ []) ∷ []
data_lines (line ∷ lines) = (codes "data: " ++ (line ++ 10 ∷ [])) ∷ data_lines lines

module _ {Value : Type 0} (marshal : Value → Option Bytes) where
  unfoldable pub encode : Content Value → Option Bytes
  encode nothing = some []
  encode (raw s) = some s
  encode (text s) = some s
  encode (bytes s) = some s
  encode (value v) = marshal v

  module _ (W : Writer) where
    abbrev go_on : W.State × Bool → (W.State → W.State × Ending) → W.State × Ending
    go_on (s, true) k = k s
    go_on (s, false) k = (s, write_failed)

    unfoldable pub write_lines :
        List Bytes → (W.State → W.State × Ending) → W.State → W.State × Ending
    write_lines [] k s = k s
    write_lines (line ∷ lines) k s = go_on (W.write s line) (λ s'. write_lines lines k s')

    abbrev finish : W.State → W.State × Ending
    finish s = go_on (W.flush s) (λ s'. (s', sent))

    abbrev with_payload : Option Bytes → W.State → W.State × Ending
    with_payload none s = (s, encode_failed)
    with_payload (some payload) s = write_lines (data_lines (split 10 payload)) finish s

    unfoldable pub event : Event Value → W.State → W.State × Ending
    event e s = write_lines (head_lines e) (with_payload (encode e.content)) s

    unfoldable pub send : Bytes → Content Value → W.State → W.State × Ending
    send name content s =
        event (record { id = []; name = name; content = content; retry = pos 0 }) s

    unfoldable pub send_raw : Bytes → Bytes → W.State → W.State × Ending
    send_raw name payload s =
        event (record { id = []; name = name; content = raw payload; retry = pos 0 }) s

    unfoldable pub comment : Bytes → W.State → W.State × Ending
    comment words s = go_on (W.write s (codes ": " ++ (words ++ 10 ∷ []))) finish
