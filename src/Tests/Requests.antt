-- ===== src/Tests/Requests.antt =====
-- Requests, their answers and the texts in them, at concrete inputs.
use e621_feed.Base.{
  nat_eq, list_eq, ℕ, zero, suc, ◌≡◌, refl, List, [], ◌∷◌, ◌++◌, some, none, ◌≤◌, ◌↔◌, inl, Bool,
  true, All, arith, length, min, ◌-◌, contains,
}
use e621_feed.Base.Int.{pos, negsuc}
use e621_feed.Base.Results.{Result, ok}
use e621_feed.Base.Text.{Str, codes}
use e621_feed.MediaRange.{serve, parse_range, range_of}
use e621_feed.MediaRange.Served.{Promises, serve-Promises}
use e621_feed.MediaRange.Print.{range_spec, parse_range-printed}
use e621_feed.PageFetch.{fetch_pages}
use e621_feed.PageFetch.Listing.{Stops, fetch_pages-Stops}
use e621_feed.Validation.Payloads.{FeedInteraction, PreferredTag, validate_preferred_tag_payload}
use e621_feed.Validation.PreferredTags.{IsAccepted, Distinct, validate_preferred_tag_payload_iff}
use e621_feed.Blacklist.{Post, rating_s, matches_impl, require_tags, require_payload}
use e621_feed.Blacklist.Terms.{query_terms}
use e621_feed.Blacklist.Agreement.{terms_hit, matches_impl-query_terms}
use e621_feed.InteractionQueue.{
  FeedInteractionRequest, Queue, Browser, opened, qualified_impression,
}
use e621_feed.InteractionQueue.Delivery.{
  Event, pushes, times_out, unloads, taken_in, taken_in-run, requests,
}
use e621_feed.InteractionQueue.Delivery
use e621_feed.InteractionQueue.Timer.{IsSettled, run-IsSettled}

abbrev outage : Str
outage = codes "fetch: e621-upstream-unavailable: timed out"

serve-Promises_example :
    Promises none
      (codes "\"a-64\"")
      100
      (serve none (some (codes "bytes=10-19")) (codes "\"a-64\"") 100)
serve-Promises_example = serve-Promises none (some (codes "bytes=10-19")) (codes "\"a-64\"") 100

parse_range-printed_example :
    parse_range (codes "bytes=" ++ range_spec 10 19) 100 ≡ range_of 10 (min 19 (100 - 1))
parse_range-printed_example = parse_range-printed 10 19 100 (omega arith) (omega arith)

-- A listing of two pages.
abbrev listing : ℕ → Result Str (List ℕ)
listing zero = ok []
listing (suc zero) = ok (11 ∷ 12 ∷ [])
listing (suc (suc zero)) = ok (13 ∷ [])
listing (suc (suc (suc n))) = ok []

fetch_pages-Stops_example : Stops listing 5 1 (fetch_pages listing 5)
fetch_pages-Stops_example = fetch_pages-Stops listing 5

abbrev two_interactions : List FeedInteraction
two_interactions =
    record { account_id = pos 7; session_id = codes "s" }
    ∷ record { account_id = negsuc 0; session_id = codes "s" }
    ∷ []

abbrev some_blacklist : Str
some_blacklist = codes "gore\n-rating:e\nrequire:video"

abbrev all_weights : ℕ → Bool
all_weights w = true

abbrev no_text : ℕ → Str
no_text w = []

abbrev two_tags : List (PreferredTag ℕ)
two_tags =
    record { tag = codes "wolf"; group = codes "species"; weight = 1 }
    ∷ record { tag = codes " wolf"; group = codes "Species"; weight = 2 }
    ∷ []

validate_preferred_tag_payload_iff_example :
    (validate_preferred_tag_payload all_weights no_text two_tags ≡ ok tt) ↔ (
      (length two_tags ≤ 50)
      × All (IsAccepted all_weights no_text) two_tags
      × Distinct all_weights no_text two_tags)
validate_preferred_tag_payload_iff_example =
    validate_preferred_tag_payload_iff all_weights no_text two_tags

abbrev still_picture : Post
still_picture = record {
  tags = record {
    general = codes "forest" ∷ [];
    artist = [];
    copyright = [];
    character = [];
    species = codes "wolf" ∷ [];
    invalid = [];
    meta = codes "hi_res" ∷ [];
    lore = [];
    contributor = [];
  };
  rating = rating_s;
  uploader_id = pos 5;
}

matches_impl-query_terms_example :
    (matches_impl still_picture some_blacklist true
      ≡ terms_hit still_picture true (query_terms some_blacklist))
    × All (λ tag. contains require_tags tag ≡ true) (query_terms some_blacklist).required
    × All (λ rule. require_payload rule ≡ none) (query_terms some_blacklist).excluded
matches_impl-query_terms_example = matches_impl-query_terms still_picture some_blacklist true

abbrev empty_queue : Queue
empty_queue = record { task = none; timer_id = 0; sent = [] }

abbrev browser : Browser
browser = record { window = true; request = true; set_timeout = some 4 }

abbrev seen_card : FeedInteractionRequest
seen_card = record {
  account_id = pos 7;
  post_id = pos 11;
  event_type = qualified_impression;
  position = pos 0;
  session_id = codes "s";
}

abbrev visit : List Event
visit =
    pushes browser (codes "http://localhost") seen_card
    ∷ pushes browser (codes "http://localhost") (record seen_card { event_type = opened })
    ∷ pushes browser (codes "http://localhost") seen_card
    ∷ unloads browser
    ∷ times_out
    ∷ []

taken_in-run_example :
    taken_in (Delivery.run empty_queue visit) ≡ taken_in empty_queue ++ requests visit
taken_in-run_example = taken_in-run empty_queue visit (tt, (tt, (tt, ((refl, refl), (tt, tt)))))

abbrev settled : IsSettled empty_queue
settled = record { bounded = omega arith; waits = inl refl; batches = tt }

run-IsSettled_example : IsSettled (Delivery.run empty_queue visit)
run-IsSettled_example =
    run-IsSettled empty_queue visit (ground arith, (ground arith, (ground arith, (tt, (tt, tt)))))
      settled
