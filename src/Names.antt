-- ===== src/Names.antt =====
-- src/names.rs: the hygiene and the refusal of a name that a client sends. The filter in force
-- (src/chat_filter.rs) is an argument.
pub mod Sanitized
pub mod Fixed
pub mod Examples
use recomp_net_server.Common.{
  ℕ, zero, suc, ◌+◌, Option, none, some, List, [], ◌∷◌, Bool, true, false, not, ltb, if◌then◌else◌,
  length, retain,
}
use recomp_net_server.Common.Options.{◌>>=◌}
use recomp_net_server.Common.Text.{Text, is_control, len_utf8, trim, take, is_empty, text_beq}
use recomp_net_server.Filter.{ChatFilter, mask}

abbrev pub name_max_chars : ℕ
name_max_chars = 32

abbrev pub name_max_bytes : ℕ
name_max_bytes = 63

-- The loop that pushes characters while they fit; `used` is `out.len()`.
unfoldable pub push_while : (used : ℕ) → Text → Text
push_while used [] = []
push_while used (c ∷ s) =
    let rest = push_while (used + len_utf8 c) s in
    if ltb name_max_bytes (used + len_utf8 c) then [] else c ∷ rest

unfoldable pub sanitize : Option Text → Option Text
sanitize name = do
  s ← name
  let out = push_while 0 (take name_max_chars (retain (λ c. not (is_control c)) s))
  let out = trim out
  if is_empty out then none else some out

unfoldable pub is_refused : ChatFilter → Text → Bool
is_refused f name = not (text_beq (mask f name) name)

unfoldable pub acceptable : ChatFilter → Option Text → Option Text
acceptable f s = do n ← sanitize s; if is_refused f n then none else some n
