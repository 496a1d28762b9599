-- ===== src/Examples/Neighbors.antt =====
-- The theorem on the semantic explorer, in a small store.
use go_web_search.Prelude.{refl, true, [], ◌∷◌, pos}
use go_web_search.Strings.{runes, text_eq}
use go_web_search.Rows.{memory}
use go_web_search.Store.{query, lift}
use go_web_search.Sql.{first, order_by, select}
use go_web_search.Vectors.{active_vector_table, vector_search, find_table, nearest}
use go_web_search.Explorer.{ExploreResult, explore, is_hit}
use go_web_search.Explorer.Nearest.{IsListing, explore-IsListing}
use go_web_search.Examples.Data.{world, service, fact_row}

-- The one fact with a vector.
abbrev shown : ExploreResult
shown = record {
  query = runes "Go";
  k = 10;
  available = true;
  note = [];
  neighbors =
      record {
        owner_kind = memory;
        id = "f";
        distance = 100000;
        similarity = pos 900000;
        text = fact_row.text;
        source_url = fact_row.source_url;
        tier = fact_row.tier;
        result_count = 0;
      }
      ∷ [];
  memory_hits = 1;
  search_hits = 0;
}

explore-IsListing_example :
    IsListing (pos 0) shown (explore service (runes "Go") (pos 0) world).1.tables
unfolding explore active_vector_table query first lift vector_search find_table text_eq nearest
    order_by select is_hit
explore-IsListing_example = explore-IsListing service (runes "Go") (pos 0) world shown refl
