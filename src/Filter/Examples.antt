-- ===== src/Filter/Examples.antt =====
-- A small word list, runs of the filter on it, and the theorems on src/chat_filter.rs at it.
use recomp_net_server.Common.{
  ◌≡◌, refl, none, some, [], ◌∷◌, true, false, length, map, get_elem?, ◌+◌, arith,
}
use recomp_net_server.Common.Text.{Text, chars}
use recomp_net_server.Filter.Ending.{mask_loop-ends}
use recomp_net_server.Filter.Lines.{mask-hides}
use recomp_net_server.Filter.Boundaries.{everywhere, Shouted, mask-everywhere}
use recomp_net_server.Filter.{
  fold, fold_ascii, fold_latin1, fold_cyrillic, fold_greek, is_letter, is_separator, ChatFilter,
  split_line, lines, trim_returns, parse_line, parse_lines, parse, skip_while, match_letters,
  match_at, best_end, star, next_position, mask_loop, mask, init,
}

unfoldable pub program : Unit {0}
unfolding fold fold_ascii fold_latin1 fold_cyrillic fold_greek is_letter is_separator split_line
    lines trim_returns parse_line parse_lines parse skip_while match_letters match_at best_end star
    next_position mask_loop mask init
program = tt

abbrev list : Text
list = chars "# words\nfuck\nass\n\n~nigger\r\nfilho da puta"

abbrev pub filter : ChatFilter
filter = record {
  words =
      record { cp = chars "fuck"; anywhere = false }
      ∷ record { cp = chars "ass"; anywhere = false }
      ∷ record { cp = chars "nigger"; anywhere = true }
      ∷ record { cp = chars "filhodaputa"; anywhere = false }
      ∷ [];
  enabled = true;
}

parsed : init list true none ≡ filter
unfolding program
parsed = refl

repeats : mask filter (chars "fuuuuck") ≡ chars "*******"
unfolding program
repeats = refl

separators : mask filter (chars "f.u.c.k off") ≡ chars "******* off"
unfolding program
separators = refl

inside : mask filter (chars "Sniggers, class") ≡ chars "S******s, class"
unfolding program
inside = refl

upper_class : mask filter (chars "CLASS") ≡ chars "CL***"
unfolding program
upper_class = refl

-- A capital and its small letter fold to different letters: the table of Latin Extended-A has one `l` and
-- one `n` too many.
acute_s : (fold 0x15a ≡ b'r') × (fold 0x15b ≡ b's')
unfolding program
acute_s = (refl, refl)

in_word : mask filter (chars "assass") ≡ chars "assass"
unfolding program
in_word = refl

mask_loop-ends_example :
    mask_loop
      (parse list true)
      (map fold (chars "fuck"))
      (length (chars "fuck") + 9)
      (chars "fuck")
      0
      0
    ≡ mask_loop
        (parse list true)
        (map fold (chars "fuck"))
        (length (chars "fuck"))
        (chars "fuck")
        0
        0
mask_loop-ends_example = mask_loop-ends list true (chars "fuck") 9

mask-hides_example : get_elem? (mask (parse list true) (chars "Sniggers")) 1 ≡ some b'*'
unfolding program
mask-hides_example =
    mask-hides list (chars "Sniggers") 1 2 (record { cp = chars "nigger"; anywhere = true }) refl
      refl refl (omega arith)

mask-everywhere_example : mask filter (chars "CLASS") ≡ mask (everywhere filter) (chars "CLASS")
unfolding program Shouted
mask-everywhere_example = mask-everywhere filter (chars "CLASS") (ground arith)
