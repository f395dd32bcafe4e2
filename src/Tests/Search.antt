-- ===== src/Tests/Search.antt =====
-- Queries, a table of a municipality and a community, and a search box.
use siedler_sterreich.Prelude.{
  ℕ, true, false, [], ◌∷◌, none, some, Text, codes, ◌==◌, ◌≡◌, refl, if◌then◌else◌,
}
use siedler_sterreich.Search.Match.{sqnorm, tokens, smatch}
use siedler_sterreich.Search.Local.{Row, Table, Around}
use siedler_sterreich.Search.Local.Query.{code_and_gnr, name_and_gnr, is_bare_gnr}
use siedler_sterreich.Search.Box.{Box, remote_wanted, lookup_wanted, on_input, fetch_remote}
use siedler_sterreich.Search.Box.Steps.{empty_box}

abbrev base : ℕ → ℕ
base c = if c == 246 then 111 else if c == 252 then 117 else c

sqnorm_saint : sqnorm base (codes "St. Pölten-Land") ≡ codes "sankt polten land"
unfolding sqnorm
sqnorm_saint = refl

sqnorm_many :
    sqnorm base (codes "  Krems / St.St st  Stein ") ≡ codes "krems sankt sankt sankt stein"
unfolding sqnorm
sqnorm_many = refl

code_and_gnr_point : code_and_gnr (codes "12105 - .68") ≡ some (codes "12105", codes "68")
unfolding code_and_gnr
code_and_gnr_point = refl

code_and_gnr_slash : code_and_gnr (codes "12105 68/3") ≡ some (codes "12105", codes "68/3")
unfolding code_and_gnr
code_and_gnr_slash = refl

name_and_gnr_space : name_and_gnr (codes "Dürnstein  68/3") ≡ some (codes "Dürnstein", codes "68/3")
unfolding name_and_gnr
name_and_gnr_space = refl

smatch_kinds :
    smatch (codes "durnstein") (codes "durn") (tokens (codes "durn"))
      ∷ smatch (codes "bad durnstein") (codes "durn bad") (tokens (codes "durn bad"))
      ∷ smatch (codes "bad durnstein") (codes "rnst") (tokens (codes "rnst"))
      ∷ []
    ≡ 3 ∷ 2 ∷ 1 ∷ []
unfolding smatch tokens
smatch_kinds = refl

remote_wanted_kinds :
    remote_wanted (codes "12105-68")
      ∷ remote_wanted (codes "3500")
      ∷ remote_wanted (codes "68/3")
      ∷ remote_wanted (codes "krems")
      ∷ remote_wanted (codes "12105 foo")
      ∷ remote_wanted (codes "12105foo")
      ∷ []
    ≡ false ∷ true ∷ false ∷ true ∷ false ∷ true ∷ []
unfolding remote_wanted
remote_wanted_kinds = refl

lookup_wanted_kinds :
    lookup_wanted (codes "12105-68")
      ∷ lookup_wanted (codes "3500")
      ∷ lookup_wanted (codes "68/3")
      ∷ lookup_wanted (codes "kr")
      ∷ lookup_wanted (codes "k")
      ∷ []
    ≡ false ∷ true ∷ false ∷ true ∷ false ∷ []
unfolding lookup_wanted
lookup_wanted_kinds = refl

is_bare_gnr_kinds :
    is_bare_gnr (codes "68")
      ∷ is_bare_gnr (codes "3500")
      ∷ is_bare_gnr (codes ".3500")
      ∷ is_bare_gnr (codes "3500/1")
      ∷ is_bare_gnr (codes "3500/")
      ∷ []
    ≡ true ∷ false ∷ true ∷ true ∷ false ∷ []
unfolding is_bare_gnr
is_bare_gnr_kinds = refl

abbrev krems : Row
krems = record { code = "30101"; name = codes "Krems"; n = codes "krems"; span = 80; home = none }

abbrev krems_kg : Row
krems_kg = record {
  code = "12114";
  name = codes "Krems";
  n = codes "krems";
  span = 30;
  home = some (record { code = "30101"; n = codes "krems" });
}

abbrev table : Table
table = record { g = krems ∷ []; k = krems_kg ∷ [] }

abbrev around : Around
around = record {
  in_game = true;
  dist = λ _. 1200;
  rank = λ _. 0;
  enhanced = [];
  loaded = [];
  loaded_ids = [];
}

abbrev query : Text
query = codes "krem"

abbrev asked : Box
asked = fetch_remote "krems" (on_input "krems" empty_box)
