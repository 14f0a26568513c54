-- ===== src/Names/Examples.antt =====
-- The names of the tests of src/names.rs, and the theorems at them.
use recomp_net_server.Common.{◌≡◌, refl, none, some}
use recomp_net_server.Common.Text.{chars, is_control, is_whitespace, trim, len_utf8, len_bytes}
use recomp_net_server.Filter.{mask}
use recomp_net_server.Filter.Examples.{filter, program as masking}
use recomp_net_server.Names.{push_while, sanitize, is_refused, acceptable}
use recomp_net_server.Names.Sanitized.{IsName}
use recomp_net_server.Names.Fixed.{acceptable-clean}

program : Unit {0}
unfolding push_while sanitize is_refused acceptable is_control is_whitespace trim len_utf8 len_bytes
    masking
program = tt

hygiene : sanitize (some (chars "Ma\nri\tsa ")) ≡ some (chars "Marisa")
unfolding program
hygiene = refl

blanks : sanitize (some (chars "   ")) ≡ none
unfolding program
blanks = refl

accepted : acceptable filter (some (chars "Scunthorpe")) ≡ some (chars "Scunthorpe")
unfolding program
accepted = refl

refused : acceptable filter (some (chars "fuck")) ≡ none
unfolding program
refused = refl

acceptable-clean_example :
    IsName (chars "Scunthorpe")
    × (mask filter (chars "Scunthorpe") ≡ chars "Scunthorpe")
    × (acceptable filter (some (chars "Scunthorpe")) ≡ some (chars "Scunthorpe"))
acceptable-clean_example =
    acceptable-clean filter (some (chars "Scunthorpe")) (chars "Scunthorpe") accepted
