-- ===== src/Percent.antt =====
-- `decodeURIComponent` of JavaScript: `%` and two digits stand for a byte, the bytes for characters in
-- UTF-8, those beyond 0xffff for two code units. Any other use of `%` is an error.
use nft_tracker.Prelude.{
  ℕ, ◌+◌, ◌-◌, ◌*◌, ◌/◌, ◌%◌, Text, Option, none, some, Bool, [], ◌∷◌, ◌++◌, ◌==◌, ◌&&◌, ◌||◌, leb,
  ltb, if◌then◌else◌,
}

unfoldable pub hex_value : ℕ → Option ℕ
hex_value c =
    if leb b'0' c && leb c b'9'
    then some (c - b'0')
    else if leb b'a' c && leb c b'f'
    then some (c - 87)
    else if leb b'A' c && leb c b'F'
    then some (c - 55)
    else none

abbrev byte_of : Option ℕ → Option ℕ → Option ℕ
byte_of (some h) (some l) = some (h * 16 + l)
byte_of _ _ = none

-- the code units of a character
unfoldable pub units : ℕ → Text
units c =
    if ltb c 0x10000
    then c ∷ []
    else (0xd800 + (c - 0x10000) / 0x400) ∷ (0xdc00 + (c - 0x10000) % 0x400) ∷ []

-- How many bytes are still to come, what those before have made up, and the smallest character that
-- may be written with so many.
pub record Pending : Type 0 where
  pub more : ℕ
  pub code : ℕ
  pub least : ℕ

abbrev pub nothing_pending : Pending
nothing_pending = record { more = 0; code = 0; least = 0 }

-- A byte ends a character, or leaves one pending, or fits nowhere.
pub data Read : Type 0 where
  emits : ℕ → Read
  waits : Pending → Read
  refuses : Read

unfoldable pub first_byte : ℕ → Read
first_byte b =
    if ltb b 0x80
    then emits b
    else if ltb b 0xc0
    then refuses
    else if ltb b 0xe0
    then waits (record { more = 1; code = b - 0xc0; least = 0x80 })
    else if ltb b 0xf0
    then waits (record { more = 2; code = b - 0xe0; least = 0x800 })
    else if ltb b 0xf8
    then waits (record { more = 3; code = b - 0xf0; least = 0x10000 })
    else refuses

unfoldable pub is_character : ℕ → ℕ → Bool
is_character least c = leb least c && leb c 0x10ffff && (ltb c 0xd800 || ltb 0xdfff c)

unfoldable pub next_byte : Pending → ℕ → Read
unfolding is_character
next_byte p b =
    let c = p.code * 64 + (b - 0x80) in
    if ltb b 0x80 || leb 0xc0 b
    then refuses
    else if p.more == 1
    then (if is_character p.least c then emits c else refuses)
    else waits (record { more = p.more - 1; code = c; least = p.least })

unfoldable pub read_byte : Pending → Option ℕ → Read
unfolding first_byte next_byte
read_byte p none = refuses
read_byte p (some b) = if p.more == 0 then first_byte b else next_byte p b

abbrev joined : Text → Option Text → Option Text
joined s none = none
joined s (some t) = some (s ++ t)

-- The rest is decoded with nothing pending, or with what is pending.
abbrev go_on_from : Read → Option Text → (Pending → Option Text) → Option Text
go_on_from refuses rest later = none
go_on_from (emits c) rest later = joined (units c) rest
go_on_from (waits p) rest later = later p

decode_from : Text → Pending → Option Text
unfolding units read_byte hex_value
decode_from [] p = if p.more == 0 then some [] else none
decode_from (c ∷ []) p = if c == b'%' || ltb 0 p.more then none else some (c ∷ [])
decode_from (c ∷ d ∷ []) p =
    if c == b'%' || d == b'%' || ltb 0 p.more then none else some (c ∷ d ∷ [])
decode_from (c ∷ d ∷ e ∷ s) p =
    let escaped =
      go_on_from (read_byte p (byte_of (hex_value d) (hex_value e))) (decode_from s nothing_pending)
        (decode_from s) in
    let plain = joined (c ∷ []) (decode_from (d ∷ e ∷ s) nothing_pending) in
    if c == b'%' then escaped else if ltb 0 p.more then none else plain

unfoldable pub decode_uri_component : Text → Option Text
unfolding decode_from
decode_uri_component s = decode_from s nothing_pending
