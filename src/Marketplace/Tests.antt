-- ===== src/Marketplace/Tests.antt =====
-- The marketplace helpers at concrete listings.
use agentic_data_engineering.Marketplace.Identity.{
  build_listing_id, listing_id_to_external_id, has_colon, MarketplaceListing,
}
use agentic_data_engineering.Marketplace.Identity.Roundtrip.{
  listing_id_to_external_id-build_listing_id,
}
use agentic_data_engineering.Marketplace.Products.{
  Python, gtin, upc, ean, isbn, asin, mpn, extract_product_identifier_from_metadata,
}
use agentic_data_engineering.Marketplace.Products.Chosen.{
  IsChoice, extract_product_identifier_from_metadata-IsChoice,
}
use agentic_data_engineering.Marketplace.Mapper.{
  new_mapper, contains, assign, get_product_key, get_listing_ids,
}
use agentic_data_engineering.Marketplace.Mapper.Consistent.{IsConsistent}
use agentic_data_engineering.Marketplace.Mapper.Assigned.{
  assign-IsConsistent, assign_all, assign_all-IsConsistent, assign-moves,
}
use agentic_data_engineering.Base.{
  String, ◌≡◌, refl, false, ◌&&◌, Option, none, some, List, [], ◌∷◌, leb,
}
use agentic_data_engineering.Base.Equality.{nat_eq, string_eq, option_eq}
use agentic_data_engineering.Base.Dict.{Dict}
use agentic_data_engineering.Base.Exec.{ok}

listing_id_to_external_id-build_listing_id_example :
    listing_id_to_external_id "ebay:12:5" ≡ ok ("ebay", "12:5")
unfolding has_colon build_listing_id
listing_id_to_external_id-build_listing_id_example =
    listing_id_to_external_id-build_listing_id "ebay" "12:5" "ebay:12:5" refl refl

abbrev listing : MarketplaceListing String
listing = record {
  listing_id = "12";
  source = "ebay";
  seller = none;
  product_key = none;
  title = "lamp";
  url = "u";
  metadata = [];
}

abbrev listing_again : MarketplaceListing String
listing_again = record listing { title = "a lamp" }

abbrev ascii : Python
ascii = record {
  Value = String;
  str = λ s. s;
  strip = λ s. s;
  is_decimal = λ c. leb b'0' c && leb c b'9';
}

-- a malformed GTIN, which is passed over, and a UPC
abbrev metadata : Dict String (Option String)
metadata = ("gtin", some "12") ∷ ("upc", some "012345678905") ∷ []

extract_product_identifier_from_metadata-IsChoice_example :
    IsChoice ascii metadata
      (gtin ∷ upc ∷ ean ∷ isbn ∷ asin ∷ mpn ∷ [])
      (extract_product_identifier_from_metadata ascii metadata)
extract_product_identifier_from_metadata-IsChoice_example =
    extract_product_identifier_from_metadata-IsChoice ascii metadata

abbrev calls : List (String × String)
calls = ("ebay:1", "ebay:p") ∷ ("ebay:2", "ebay:p") ∷ ("ebay:1", "ebay:q") ∷ []

assign_all-IsConsistent_example : IsConsistent (assign_all calls new_mapper)
assign_all-IsConsistent_example = assign_all-IsConsistent calls

assign-IsConsistent_example :
    IsConsistent (assign "ebay:1" "ebay:r" (assign_all calls new_mapper)).1
assign-IsConsistent_example =
    assign-IsConsistent "ebay:1" "ebay:r" (assign_all calls new_mapper)
      (assign_all-IsConsistent calls)

assign-moves_example :
    (get_product_key "ebay:1" (assign "ebay:1" "ebay:r" (assign_all calls new_mapper)).1
      ≡ some "ebay:r")
    × (contains "ebay:1"
          (get_listing_ids "ebay:p" (assign "ebay:1" "ebay:r" (assign_all calls new_mapper)).1)
        ≡ false)
unfolding assign
assign-moves_example =
    assign-moves "ebay:1" "ebay:r" "ebay:p" (assign_all calls new_mapper)
      (assign_all-IsConsistent calls) refl
