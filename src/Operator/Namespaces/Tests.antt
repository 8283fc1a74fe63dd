-- ===== src/Operator/Namespaces/Tests.antt =====
-- --namespace="shop, web,shop"
use poddoctor.Prelude.{String, some, List, [], ◌∷◌, ◌≡◌, refl, map}
use poddoctor.Text.{join}
use poddoctor.Text.Split.{is_space, split, trim_space}
use poddoctor.Operator.Namespaces.{member, insert, collect, watched}
use poddoctor.Operator.Namespaces.Laws.{Listed, IsListed, text_of, watched_lem}

abbrev shop : Listed
shop = record { before = ""; name = "shop"; after = "" }

abbrev web : Listed
web = record { before = " "; name = "web"; after = "" }

shop-IsListed : IsListed shop
unfolding is_space
shop-IsListed = record {
  spaces_before = refl;
  named = refl;
  solid = refl;
  single = refl;
  spaces_after = refl;
}

web-IsListed : IsListed web
unfolding is_space
web-IsListed = record {
  spaces_before = refl;
  named = refl;
  solid = refl;
  single = refl;
  spaces_after = refl;
}

watched_lem_example :
    (keys : List String) × (watched (join (map text_of (shop ∷ web ∷ shop ∷ [])) ",") ≡ some keys)
    × ((ns : String) → member ns keys ≡ member ns ("shop" ∷ "web" ∷ "shop" ∷ []))
watched_lem_example =
    watched_lem shop (web ∷ shop ∷ []) shop-IsListed (web-IsListed, (shop-IsListed, tt))

read : watched "shop, web,shop" ≡ some ("web" ∷ "shop" ∷ [])
unfolding watched collect split trim_space is_space insert
read = refl

-- A flag with nothing between its commas restricts the cache to no namespace.
only_comma : watched "," ≡ some []
unfolding watched collect split trim_space is_space
only_comma = refl
