-- ===== src/TenantDetail/Guide/Examples/Words.antt =====
-- What the examples of IntegrationGuide.tsx say to the programs that read them.
use Prim.Native.String.{◌++◌}
use text.Mathlib.TextLemmas.{nil-append}
use mathlib.Core.Path.{ap₂}
use notification_platform.Base.{
  Bool, every, arith, ◌&&◌, ℕ, suc, String, true, List, [], ◌∷◌, ◌≡◌, refl, ◌∙◌, ap, take, drop,
}
use notification_platform.TenantDetail.Guide.Examples.Lines.{lines}
use notification_platform.TenantDetail.Guide.Examples.{
  payload_lines, payload, php_array_payload_lines, php_array_payload, python_payload_lines,
  python_payload, curl_example,
}
use notification_platform.TenantDetail.Guide.Examples.Reading.{
  Reader, quoted, unread, shell, shell_words, literal, literals, words_at_end, run, run_lines,
  run-lines, run_inside, plain_in, unquoted, all_codes, all_codes-append, shell_plain,
  literal_plain,
}

-- The literals of a request in all the examples, the last one first.
abbrev pub request_literals : String → List String
request_literals slug =
    "integration-test-001"
    ∷ "idempotency_key"
    ∷ "instant"
    ∷ "type"
    ∷ "schedule"
    ∷ "5"
    ∷ "priority"
    ∷ ("Hello from " ++ slug)
    ∷ "message"
    ∷ "Developer"
    ∷ "customer_name"
    ∷ "data"
    ∷ "developer@example.com"
    ∷ "email"
    ∷ "recipient"
    ∷ "single"
    ∷ "type"
    ∷ "target"
    ∷ "welcome"
    ∷ "template"
    ∷ "email"
    ∷ "channels"
    ∷ "integration.test"
    ∷ "event"
    ∷ []

-- The literals of a text whose line `n` has the slug between `a` and `b`.
lines_around :
    (q n : ℕ) (ls : List String) (a b slug : String)
    → all_codes (plain_in q) slug ≡ true
    → let r = run (literal q) (run_lines (literal q) unread (take n ls)) "\n" in
      (run (literal q) r a).mode ≡ quoted
      → run_lines (literal q) unread ls
        ≡ run_lines
            (literal q)
            (run (literal q) (run (literal q) r (a ++ slug ++ b)) "\n")
            (drop (suc n) ls)
      → run (literal q) unread (lines ls)
        ≡ run_lines
            (literal q)
            (run
              (literal q)
              (run
                (literal q)
                (record (run (literal q) r a) {
                  mode = quoted;
                  word = (run (literal q) r a).word ++ slug;
                })
                b)
              "\n")
            (drop (suc n) ls)
lines_around q n ls a b slug h m split =
    let step = literal q in
    run-lines step unread ls
    ∙ split
    ∙ ap (λ (r : Reader). run_lines step (run step r "\n") (drop (suc n) ls))
        (run_inside step (run step (run_lines step unread (take n ls)) "\n") a b slug
          (λ w ws. literal_plain q slug w ws h) m)

json_reading :
    (slug : String)
    → all_codes (plain_in 34) slug ≡ true
    → literals 34 (payload slug) ≡ request_literals slug
unfolding literals payload run_lines unread run literal
json_reading slug h =
    ap (λ (r : Reader). words_at_end r.mode r)
      (lines_around 34 12 (payload_lines slug) "    \"message\": \"Hello from " "\"" slug h refl
        refl)

php_reading :
    (slug : String)
    → all_codes (plain_in 39) slug ≡ true
    → literals 39 (php_array_payload slug) ≡ request_literals slug
unfolding literals php_array_payload run_lines unread run literal
php_reading slug h =
    ap (λ (r : Reader). words_at_end r.mode r)
      (lines_around 39 5 (php_array_payload_lines slug)
        "  'data' => ['customer_name' => 'Developer', 'message' => 'Hello from " "']," slug h refl
        refl)

python_reading :
    (slug : String)
    → all_codes (plain_in 39) slug ≡ true
    → literals 39 (python_payload slug) ≡ request_literals slug
unfolding literals python_payload run_lines unread run literal
python_reading slug h =
    ap (λ (r : Reader). words_at_end r.mode r)
      (lines_around 39 5 (python_payload_lines slug)
        "    'data': {'customer_name': 'Developer', 'message': 'Hello from " "'}," slug h refl refl)

-- For a slug without quotes and backslashes the payloads of the examples in JSON, PHP and Python have
-- the same string and number literals in the same order: those of the request, the last one first.
pub literals-payload :
    (slug : String)
    → all_codes (plain_in 34) slug ≡ true
    → all_codes (plain_in 39) slug ≡ true
    → (literals 34 (payload slug) ≡ request_literals slug)
      × (literals 39 (php_array_payload slug) ≡ request_literals slug)
      × (literals 39 (python_payload slug) ≡ request_literals slug)
literals-payload slug h k = (json_reading slug h, php_reading slug k, python_reading slug k)

all_codes-lines :
    (p : ℕ → Bool) (ls : List String)
    → p 10 ≡ true
    → every (all_codes p) ls ≡ true
    → all_codes p (lines ls) ≡ true
unfolding lines all_codes
all_codes-lines p [] h a = refl
all_codes-lines p (l ∷ []) h a = ground arith
all_codes-lines p (l ∷ m ∷ ls) h a =
    all_codes-append p l _ (ground arith)
      (all_codes-append p "\n" _ (ground arith) (all_codes-lines p (m ∷ ls) h (ground arith)))

all_codes-payload :
    (slug : String) → all_codes unquoted slug ≡ true → all_codes unquoted (payload slug) ≡ true
unfolding payload all_codes
all_codes-payload slug h =
    let message =
      all_codes-append unquoted "    \"message\": \"Hello from " (slug ++ "\"") refl
        (all_codes-append unquoted slug "\"" h refl) in
    all_codes-lines unquoted (payload_lines slug) refl (ap (λ (b : Bool). b && true) message)

-- The words of the curl example, the last one first.
abbrev pub curl_words : String → String → List String
curl_words request url =
    request ∷ "--data" ∷ "Content-Type: application/json" ∷ "--header"
    ∷ "Authorization: Bearer YOUR_API_KEY" ∷ "--header" ∷ url ∷ "POST" ∷ "--request" ∷ "curl" ∷ []

-- A shell reads the curl example as these words, the last one first, if neither the address nor the
-- slug holds an apostrophe: the payload is one word, as it stands.
pub shell_words-curl_example :
    (url slug : String)
    → all_codes unquoted url ≡ true
    → all_codes unquoted slug ≡ true
    → shell_words (curl_example url slug) ≡ curl_words (payload slug) url
unfolding shell_words curl_example run_lines unread run shell
shell_words-curl_example url slug h k =
    let first = "curl --request POST '" ++ url ++ "' \\" in
    let last = "  --data '" ++ payload slug ++ "'" in
    let auth : String = "  --header 'Authorization: Bearer YOUR_API_KEY' \\" in
    let json : String = "  --header 'Content-Type: application/json' \\" in
    let read : Reader = record {
      mode = quoted;
      word = "" ++ url;
      words = "POST" ∷ "--request" ∷ "curl" ∷ [];
    } in
    let r = run_lines shell (run shell (run shell read "' \\") "\n") (auth ∷ json ∷ "" ∷ []) in
    ap (λ (r : Reader). words_at_end r.mode r)
      (run-lines shell unread (first ∷ auth ∷ json ∷ last ∷ [])
        ∙ ap (λ (r : Reader). run_lines shell (run shell r "\n") (auth ∷ json ∷ last ∷ []))
            (run_inside shell unread "curl --request POST '" "' \\" url
              (λ w ws. shell_plain url w ws h) refl)
        ∙ run_inside shell r "  --data '" "'" (payload slug)
            (λ w ws. shell_plain (payload slug) w ws (all_codes-payload slug k)) refl)
    ∙ ap₂ (λ (p u : String). curl_words p u) (nil-append (payload slug)) (nil-append url)
