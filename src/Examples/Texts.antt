-- ===== src/Examples/Texts.antt =====
-- The theorems about Core/src/StringUtil.cpp at concrete texts.
use vpn_client.Prelude.{Bool, true, false, none, some, ◌≡◌, ◌↔◌, refl, Bytes, codes, All}
use vpn_client.Core.Text.{to_decimal}
use vpn_client.Core.Text.Hex.{digits_value, IsDigit, digits_value-to_decimal}
use vpn_client.Core.Glob.{glob_loop, enough_fuel, glob_match}
use vpn_client.Core.Glob.Matches.{Matches}
use vpn_client.Core.Glob.Correct.{glob_loop_total, glob_match-Matches, glob_match_star}

abbrev hosts : Bytes
hosts = codes "*.lan;10.*;"

abbrev padded : Bytes
padded = codes "  vpn gate "

digits_value-to_decimal_example :
    (digits_value 0 (to_decimal 1194) ≡ 1194) × All IsDigit (to_decimal 1194)
digits_value-to_decimal_example = digits_value-to_decimal 1194

glob_loop_total_example :
    (b : Bool) × (glob_loop
        (enough_fuel (codes "c:\\*\\app.exe") (codes "C:/x/app.exe"))
        (codes "c:\\*\\app.exe")
        (codes "C:/x/app.exe")
        none
      ≡ some b)
glob_loop_total_example = glob_loop_total (codes "c:\\*\\app.exe") (codes "C:/x/app.exe")

glob_match-Matches_example :
    (glob_match (codes "*.exe") (codes "a.exe") ≡ true) ↔ Matches (codes "*.exe") (codes "a.exe")
glob_match-Matches_example =
    glob_match-Matches (codes "*.exe") (codes "a.exe") (refl, (refl, (refl, (refl, (refl, tt)))))

glob_match_star_example :
    Matches (codes "*") (codes "*ab") × (glob_match (codes "*") (codes "*ab") ≡ false)
glob_match_star_example = glob_match_star b'a' (codes "b")
