-- ===== src/Azblob/Listing/Laws.antt =====
-- Count of azblob/list.go against the pages that the service has.
use go_rkvstcommon.Prelude.{
  ℕ, zero, suc, ◌+◌, ◌<◌, ◌≡◌, String, true, false, none, some, ap, List, [], ◌∷◌, ◌++◌, arith,
  length,
}
use go_rkvstcommon.Prelude.Outcome.{ok}
use go_rkvstcommon.Prelude.Int.{pos}
use go_rkvstcommon.Azblob.Options.{ListMarker, StorerOption, with_list_marker, parse_options}
use go_rkvstcommon.Azblob.HashingReader.{int64, add_int64-int64, int64-small}
use go_rkvstcommon.Azblob.Service.{History, Service, ListReply, find_blobs_by_tags, Call}
use go_rkvstcommon.Azblob.Listing.{is_last, filter_request, filtered_list, count_from, count}

module _ (azp : Service) (tags_filter : String) (opts : List StorerOption) where
  -- The request for the page at a marker.
  abbrev pub page_call : ListMarker → Call
  page_call m =
      find_blobs_by_tags
        (filter_request tags_filter (parse_options (opts ++ with_list_marker m ∷ [])))

  -- The service has these pages, one after another from the marker m on, and only the last of them
  -- has no marker of a next one.
  abbrev pub HasPages : History → ListMarker → ListReply → List ListReply → Type 0
  HasPages h m p [] = (azp.page h (page_call m) ≡ ok p) × (is_last p.next_marker ≡ true)
  HasPages h m p (q ∷ ps) =
      (azp.page h (page_call m) ≡ ok p)
      × (is_last p.next_marker ≡ false)
      × HasPages (h ++ page_call m ∷ []) p.next_marker q ps

  abbrev pub items_of : List ListReply → ℕ
  items_of [] = 0
  items_of (p ∷ ps) = length p.items + items_of ps

  count_from-pages :
      (fuel n : ℕ) (h : History) (m : ListMarker) (p : ListReply) (ps : List ListReply)
      → length ps < fuel
      → HasPages h m p ps
      → (count_from azp fuel tags_filter opts (int64 n) m h).0
        ≡ ok (some (int64 (n + items_of (p ∷ ps))))
  unfolding count_from filtered_list
  count_from-pages zero n h m p ps f pages = elim f [ ]
  count_from-pages (suc fuel) n h m p [] f pages =
      let same : n + length p.items ≡ n + items_of (p ∷ []) = omega arith in
      ground (arith, add_int64-int64 n (length p.items), ap int64 same)
  count_from-pages (suc fuel) n h m p (q ∷ ps) f pages =
      let same : n + length p.items + items_of (q ∷ ps) ≡ n + items_of (p ∷ q ∷ ps) = omega arith in
      ground (
        arith,
        add_int64-int64 n (length p.items),
        ap int64 same,
        count_from-pages fuel (n + length p.items) (h ++ page_call m ∷ []) p.next_marker q ps,
      )

  -- Where the service has the pages p ∷ ps from the first one on, Count with fuel for more than
  -- length ps pages returns the number of their items, as an int64.
  pub count-pages :
      (fuel : ℕ) (h : History) (p : ListReply) (ps : List ListReply)
      → length ps < fuel
      → HasPages h none p ps
      → (count azp fuel tags_filter opts h).0 ≡ ok (some (int64 (items_of (p ∷ ps))))
  unfolding count
  count-pages fuel h p ps f pages =
      let none_yet : int64 0 ≡ pos 0 = int64-small 0 (omega arith) in
      let same : 0 + items_of (p ∷ ps) ≡ items_of (p ∷ ps) = omega arith in
      ground (arith, none_yet, ap int64 same, count_from-pages fuel 0 h none p ps f pages)
