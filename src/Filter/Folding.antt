-- ===== src/Filter/Folding.antt =====
-- The folding of one character (src/chat_filter.rs). A `char` is its number.
use Prim.Native.Char.{code}
use Prim.Native.String.{char_at}
use recomp_net_server.Common.{
  ℕ, ◌+◌, ◌-◌, String, Bool, false, not, ◌||◌, ltb, ◌==◌, nat_eq, if◌then◌else◌,
}
use recomp_net_server.Common.Text.{within}

-- The byte of an ASCII table.
abbrev pub byte_at : String → ℕ → ℕ
byte_at s i = code (char_at s i)

abbrev pub latin1 : String
latin1 = "aaaaaaaceeeeiiiidnooooo/ouuuuytsaaaaaaaceeeeiiiidnooooo/ouuuuyty"

unfoldable pub fold_latin1 : ℕ → ℕ
fold_latin1 c =
    let m = byte_at latin1 (c - 0xc0) in
    if m == b'/' then c else if c == 0xde || c == 0xfe then b't' else m

abbrev pub latin_extended_a : String
latin_extended_a =
    "aaaaaaccccccccddddeeeeeeeeeegggggggghhhhiiiiiiiiiijjjjkkklllllllllllnnnnnnnnnoooooooorrrrrrssssssssttttttuuuuuuuuuuuuwwyyyzzzzzzs"

-- The letters and digits below U+0080.
unfoldable pub fold_ascii : ℕ → ℕ
fold_ascii c =
    if within b'A' b'Z' c
    then c + 32
    else if c == b'0'
    then b'o'
    else if c == b'1'
    then b'i'
    else if c == b'3'
    then b'e'
    else if c == b'4'
    then b'a'
    else if c == b'5'
    then b's'
    else if c == b'7'
    then b't'
    else if c == b'@'
    then b'a'
    else if c == b'$'
    then b's'
    else if c == b'!'
    then b'i'
    else if c == b'|'
    then b'l'
    else if c == b'+'
    then b't'
    else c

-- The single letters of Cyrillic that lie outside its alphabet's block.
unfoldable pub fold_cyrillic : ℕ → ℕ
fold_cyrillic u =
    if u == 0x401 || u == 0x451
    then 0x435
    else if u == 0x404
    then 0x454
    else if u == 0x406
    then 0x456
    else if u == 0x407
    then 0x457
    else if u == 0x490
    then 0x491
    else u

-- The accented letters of Greek.
unfoldable pub fold_greek : ℕ → ℕ
fold_greek u =
    if u == 0x3c2
    then 0x3c3
    else if u == 0x3ac || u == 0x386
    then 0x3b1
    else if u == 0x3ad || u == 0x388
    then 0x3b5
    else if u == 0x3ae || u == 0x389
    then 0x3b7
    else if u == 0x3af || u == 0x38a
    then 0x3b9
    else if u == 0x3cc || u == 0x38c
    then 0x3bf
    else if u == 0x3cd || u == 0x38e
    then 0x3c5
    else if u == 0x3ce || u == 0x38f
    then 0x3c9
    else u

-- The early returns of the source are one chain of tests; the blocks tested are disjoint. A full-width
-- character narrows to one below U+0080, so the call of `fold` on it is `fold_ascii`.
unfoldable pub fold : ℕ → ℕ
fold u =
    if ltb u 0x80
    then fold_ascii u
    else if within 0xc0 0xff u
    then fold_latin1 u
    else if within 0x100 0x17f u
    then byte_at latin_extended_a (u - 0x100)
    else if within 0x410 0x42f u
    then u + 0x20
    else if not (fold_cyrillic u == u)
    then fold_cyrillic u
    else if within 0x391 0x3a9 u
    then u + 0x20
    else if not (fold_greek u == u)
    then fold_greek u
    else if within 0xff01 0xff5e u
    then fold_ascii (u - 0xff01 + 0x21)
    else if u == 0x20ac
    then b'e'
    else u

unfoldable pub is_letter : ℕ → Bool
is_letter u =
    if ltb u 0x80
    then within b'a' b'z' u
    else if within 0x2000 0x206f u || within 0x3000 0x303f u || within 0xff00 0xff0f u
    then false
    else not (u == 0xa0 || u == 0xb7 || u == 0xbf || u == 0xa1)

unfoldable pub is_separator : ℕ → Bool
is_separator c =
    c == b' '
    || c == b'.'
    || c == b'-'
    || c == b'_'
    || c == b'*'
    || c == b'\''
    || c == b','
    || c == 0x2019
    || c == 0xa0
