-- ===== src/Tests/Cli.antt =====
-- Runs of the CLI's part: the pages directory, fingerprints, retries.
use pg_web.Common.{
  ℕ, zero, suc, ◌+◌, ◌≡◌, ◌≢◌, ◌⊎◌, ◌↔◌, inl, inr, refl, true, false, List, [], ◌∷◌, ◌++◌, Option,
  none, some, Text, codes, map, IsIn, has, same, All, length, ◌≤◌, arith,
}
use pg_web.Common.Result.{Result, ok, err}
use pg_web.Pattern.{PatSeg, is_safe_ident}
use pg_web.Pattern.Parsing.{of_segments}
use pg_web.Paths.{
  Segment, static, capture, build_route, build_handler_name, parse_segment, underscores,
}
use pg_web.Paths.Segments.{
  parse_segment_iff, print_raw, IsValid, to_pat, parse-build_route, build_route_injective,
  IsRoutable,
}
use pg_web.Paths.Handlers.{
  IsWord, IsNameable, build_handler_name-is_safe_ident, build_handler_name_collides,
}
use pg_web.Paths.Scan.{PageFile, RouteEntry, Key, scan, panicked, split_name}
use pg_web.Paths.Scan.Entries.{IsEntry, Carries, scan_all, scan_no_panic}
use pg_web.Paths.Scan.Slots.{setter}
use pg_web.Http.{is_hash, is_fingerprinted_url}
use pg_web.Fingerprint.{
  fingerprint_url, fingerprint_url-is_fingerprinted, fingerprint_url-no_extension,
}
use pg_web.Retry.{Fails, state_at}

abbrev posts_id : List Segment
posts_id = static (codes "posts") ∷ capture (codes "id") ∷ []

abbrev pub show_file : PageFile
show_file = record { parent_rel = []; file_name = codes "index.html" }

abbrev pub show_entry : RouteEntry
show_entry = record {
  method = codes "GET";
  route = codes "/";
  handler_name = codes "pgweb.pages__index";
  template_path = some (codes "pages/index.html");
  html_path = some show_file;
  sql_path = none;
}

pub show_scanned : scan true (show_file ∷ []) ≡ ok (show_entry ∷ [])
unfolding scan pg_web.Paths.method_for_stem split_name pg_web.Common.rsplit_once pg_web.Common.same
    pg_web.Paths.validate_stem pg_web.Common.Result.collect pg_web.Paths.Scan.update_slot
    pg_web.Paths.parse_segments pg_web.Common.Sort.sort_by build_route build_handler_name
    pg_web.Paths.build_template_path pg_web.Common.join pg_web.Common.Sort.insert_sorted
    pg_web.Paths.Scan.add_file
show_scanned = refl

show_setter : setter show_file ≢ none
unfolding split_name pg_web.Common.rsplit_once pg_web.Common.same
show_setter e = cc

posts-IsValid : All IsValid posts_id
unfolding pg_web.Common.bytes pg_web.Common.utf8 pg_web.Common.is_ascii_alphabetic
    pg_web.Common.is_ascii_alphanumeric
posts-IsValid = ((refl, refl), (((refl, (refl, tt)), omega arith), tt))

posts-IsRoutable : All IsRoutable posts_id
posts-IsRoutable = (((refl, refl), refl), (tt, tt))

posts-IsNameable : All IsNameable posts_id
unfolding pg_web.Pattern.Ident.is_word_byte pg_web.Common.is_ascii_digit
posts-IsNameable = ((refl, (refl, (refl, (refl, (refl, tt))))), ((refl, (refl, (refl, tt))), tt))

index-IsWord : IsWord (codes "index")
unfolding pg_web.Pattern.Ident.is_word_byte
index-IsWord = (refl, (refl, (refl, (refl, (refl, tt)))))

posts_short : length (build_handler_name posts_id (codes "index")) ≤ 128
unfolding build_handler_name pg_web.Common.join
posts_short = omega arith

hash_is : is_hash (some (codes "deadbeef")) ≡ true
unfolding pg_web.Common.bytes pg_web.Common.utf8 pg_web.Common.is_ascii_hexdigit
hash_is = refl

scan_all_example :
    (e : RouteEntry) × IsIn e (show_entry ∷ [])
    × IsEntry show_file.parent_rel (split_name show_file.file_name).0 e
    × Carries show_file e
scan_all_example = scan_all true (show_file ∷ []) show_file show_scanned (inl refl) show_setter

scan_no_panic_example : scan true (show_file ∷ []) ≢ err panicked
scan_no_panic_example = scan_no_panic true (show_file ∷ [])

parse_segment_iff_example :
    (parse_segment (codes "[id]") ≡ ok (capture (codes "id")))
    ↔ ((codes "[id]" ≡ print_raw (capture (codes "id"))) × IsValid (capture (codes "id")))
parse_segment_iff_example = parse_segment_iff (codes "[id]") (capture (codes "id"))

parse-build_route_example :
    pg_web.Pattern.parse (build_route posts_id) ≡ ok (of_segments (map to_pat posts_id))
parse-build_route_example = parse-build_route posts_id posts-IsValid posts-IsRoutable

build_route_injective_example : posts_id ≡ posts_id
build_route_injective_example =
    build_route_injective posts_id posts_id posts-IsValid posts-IsRoutable posts-IsValid
      posts-IsRoutable refl

build_handler_name-is_safe_ident_example :
    is_safe_ident (build_handler_name posts_id (codes "index")) ≡ true
build_handler_name-is_safe_ident_example =
    build_handler_name-is_safe_ident posts_id (codes "index") posts-IsNameable index-IsWord
      posts_short

build_handler_name_collides_example :
    (build_handler_name (static (codes "a__b") ∷ []) (codes "index")
      ≡ build_handler_name (static (codes "a") ∷ static (codes "b") ∷ []) (codes "index"))
    × (build_route (static (codes "a__b") ∷ [])
        ≢ build_route (static (codes "a") ∷ static (codes "b") ∷ []))
build_handler_name_collides_example =
    build_handler_name_collides (codes "a") (codes "b") (codes "index")
      ((refl, refl), ((refl, refl), tt)) (((refl, refl), refl), (((refl, refl), refl), tt))

fingerprint_url-is_fingerprinted_example :
    is_fingerprinted_url (fingerprint_url (codes "/js/app.min.js") (codes "deadbeef")) ≡ true
fingerprint_url-is_fingerprinted_example =
    fingerprint_url-is_fingerprinted (codes "/js") b'a' (codes "pp.min") (codes "js")
      (codes "deadbeef") refl refl refl hash_is

fingerprint_url-no_extension_example :
    is_fingerprinted_url (fingerprint_url (codes "/README") (codes "deadbeef")) ≡ false
fingerprint_url-no_extension_example =
    fingerprint_url-no_extension [] (codes "README") (codes "deadbeef") refl refl hash_is

-- A call that succeeds on its second run; the state counts the calls.
abbrev second : ℕ → Result ℕ ℕ × ℕ
second zero = (err 7, 1)
second (suc n) = (ok 5, suc (suc n))

abbrev always : ℕ → Result ℕ ℕ × ℕ
always n = (err n, suc n)

second-Fails : Fails second (λ e. true) (λ a s. s) (λ m e. e) 1 1 0
unfolding Fails
second-Fails = ((7, refl, refl), tt)

second_succeeds : (second (state_at second (λ e. true) (λ a s. s) (λ m e. e) 1 1 0)).0 ≡ ok 5
unfolding state_at
second_succeeds = refl

always-Fails : Fails always (λ e. true) (λ a s. s) (λ m e. e) 1 2 0
unfolding Fails
always-Fails = ((0, refl, refl), ((1, refl, refl), tt))

always_last : (always (state_at always (λ e. true) (λ a s. s) (λ m e. e) 1 2 0)).0 ≡ err 2
unfolding state_at
always_last = refl
