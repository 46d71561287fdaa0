-- ===== src/Points/Escape.antt =====
-- misc/points.go: the escapes of measurements, tags and string fields.
pub mod Byte
pub mod Tag
pub mod StringField
use vgo.Prelude.{ℕ, Bytes, Bool, true, false, ◌&&◌, ◌||◌, ◌==◌, List, [], ◌∷◌, ◌++◌, if◌then◌else◌}

-- `bytes.Replace(in, []byte{b}, []byte{'\\', b}, -1)`.
unfoldable pub escape_byte : ℕ → Bytes → Bytes
escape_byte b [] = []
escape_byte b (c ∷ s) = if c == b then b'\\' ∷ c ∷ escape_byte b s else c ∷ escape_byte b s

-- `bytes.Replace(in, []byte{'\\', b}, []byte{b}, -1)`: from the left, without overlaps.
unfoldable pub unescape_byte : ℕ → Bytes → Bytes
unescape_byte b [] = []
unescape_byte b (c ∷ []) = c ∷ []
unescape_byte b (c ∷ d ∷ s) =
    let replaced = d ∷ unescape_byte b s in
    let copied = c ∷ unescape_byte b (d ∷ s) in if c == b'\\' && d == b then replaced else copied

-- `bytes.IndexByte(in, b) != -1`.
unfoldable pub has_byte : ℕ → Bytes → Bool
has_byte b [] = false
has_byte b (c ∷ s) = c == b || has_byte b s

-- `for b, esc := range codes { in = bytes.Replace(…) }`, in the order in which the map yields
-- its codes.
unfoldable pub escape_all : List ℕ → Bytes → Bytes
unfolding escape_byte
escape_all [] s = s
escape_all (b ∷ bs) s = escape_all bs (escape_byte b s)

unfoldable pub unescape_all : List ℕ → Bytes → Bytes
unfolding unescape_byte
unescape_all [] s = s
unescape_all (b ∷ bs) s = unescape_all bs (unescape_byte b s)

-- The keys of `measurementEscapeCodes` and of `tagEscapeCodes`.
abbrev pub measurement_escape_codes : List ℕ
measurement_escape_codes = b',' ∷ b' ' ∷ []

abbrev pub tag_escape_codes : List ℕ
tag_escape_codes = b',' ∷ b' ' ∷ b'=' ∷ []

unfoldable pub escape_measurement : Bytes → Bytes
unfolding escape_all
escape_measurement s = escape_all measurement_escape_codes s

unfoldable pub unescape_measurement : Bytes → Bytes
unfolding unescape_all
unescape_measurement s = unescape_all measurement_escape_codes s

-- The loops of `escapeTag` and `unescapeTag` skip a code that does not occur.
unfoldable pub escape_present : List ℕ → Bytes → Bytes
unfolding escape_byte has_byte
escape_present [] s = s
escape_present (b ∷ bs) s = escape_present bs (if has_byte b s then escape_byte b s else s)

unfoldable pub unescape_present : List ℕ → Bytes → Bytes
unfolding unescape_byte has_byte
unescape_present [] s = s
unescape_present (b ∷ bs) s = unescape_present bs (if has_byte b s then unescape_byte b s else s)

-- The loops over `tagEscapeCodes`, a map, in one of the orders that the runtime may take: a code adds
-- only backslashes, which are no code, so that the result is the same in any.
unfoldable pub escape_tag : Bytes → Bytes
unfolding escape_present
escape_tag s = escape_present tag_escape_codes s

unfoldable pub unescape_tag : Bytes → Bytes
unfolding unescape_present
unescape_tag s = unescape_present tag_escape_codes s

-- `escapeStringField`: a backslash before each backslash and each double quote.
unfoldable pub escape_string_field : Bytes → Bytes
escape_string_field [] = []
escape_string_field (c ∷ s) =
    if c == b'\\'
    then b'\\' ∷ b'\\' ∷ escape_string_field s
    else if c == b'"'
    then b'\\' ∷ b'"' ∷ escape_string_field s
    else c ∷ escape_string_field s

-- `unescapeStringField`: a pair of a backslash and a backslash or double quote loses its first.
unfoldable pub unescape_string_field : Bytes → Bytes
unescape_string_field [] = []
unescape_string_field (c ∷ []) = c ∷ []
unescape_string_field (c ∷ d ∷ s) =
    let pair = d ∷ unescape_string_field s in
    let copied = c ∷ unescape_string_field (d ∷ s) in
    if c == b'\\' && (d == b'\\' || d == b'"') then pair else copied
