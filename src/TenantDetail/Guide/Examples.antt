-- ===== src/TenantDetail/Guide/Examples.antt =====
-- `buildExamples` of IntegrationGuide.tsx with the payloads of the languages: texts made of the address
-- of the API and the slug of the tenant.
pub mod Lines
pub mod Reading
pub mod Words
use Prim.Native.String.{◌++◌}
use notification_platform.Base.{String, List, [], ◌∷◌, Dict}
use notification_platform.TenantDetail.Guide.Examples.Lines.{lines}

abbrev pub payload_lines : String → List String
payload_lines slug =
    "{"
    ∷ "  \"event\": \"integration.test\","
    ∷ "  \"channels\": [\"email\"],"
    ∷ "  \"template\": \"welcome\","
    ∷ "  \"target\": {"
    ∷ "    \"type\": \"single\","
    ∷ "    \"recipient\": {"
    ∷ "      \"email\": \"developer@example.com\""
    ∷ "    }"
    ∷ "  },"
    ∷ "  \"data\": {"
    ∷ "    \"customer_name\": \"Developer\","
    ∷ ("    \"message\": \"Hello from " ++ slug ++ "\"")
    ∷ "  },"
    ∷ "  \"priority\": 5,"
    ∷ "  \"schedule\": { \"type\": \"instant\" },"
    ∷ "  \"idempotency_key\": \"integration-test-001\""
    ∷ "}"
    ∷ []

unfoldable pub payload : String → String
payload slug = lines (payload_lines slug)

abbrev pub php_array_payload_lines : String → List String
php_array_payload_lines slug =
    "["
    ∷ "  'event' => 'integration.test',"
    ∷ "  'channels' => ['email'],"
    ∷ "  'template' => 'welcome',"
    ∷ "  'target' => ['type' => 'single', 'recipient' => ['email' => 'developer@example.com']],"
    ∷ ("  'data' => ['customer_name' => 'Developer', 'message' => 'Hello from " ++ slug ++ "'],")
    ∷ "  'priority' => 5,"
    ∷ "  'schedule' => ['type' => 'instant'],"
    ∷ "  'idempotency_key' => 'integration-test-001',"
    ∷ "]"
    ∷ []

unfoldable pub php_array_payload : String → String
php_array_payload slug = lines (php_array_payload_lines slug)

abbrev pub python_payload_lines : String → List String
python_payload_lines slug =
    "{"
    ∷ "    'event': 'integration.test',"
    ∷ "    'channels': ['email'],"
    ∷ "    'template': 'welcome',"
    ∷ "    'target': {'type': 'single', 'recipient': {'email': 'developer@example.com'}},"
    ∷ ("    'data': {'customer_name': 'Developer', 'message': 'Hello from " ++ slug ++ "'},")
    ∷ "    'priority': 5,"
    ∷ "    'schedule': {'type': 'instant'},"
    ∷ "    'idempotency_key': 'integration-test-001',"
    ∷ "}"
    ∷ []

unfoldable pub python_payload : String → String
python_payload slug = lines (python_payload_lines slug)

unfoldable pub curl_example : String → String → String
curl_example url slug = lines (
    ("curl --request POST '" ++ url ++ "' \\")
    ∷ "  --header 'Authorization: Bearer YOUR_API_KEY' \\"
    ∷ "  --header 'Content-Type: application/json' \\"
    ∷ ("  --data '" ++ payload slug ++ "'")
    ∷ [])

unfoldable pub javascript_example : String → String → String
javascript_example url slug = lines (
    ("const response = await fetch('" ++ url ++ "', {")
    ∷ "  method: 'POST',"
    ∷ "  headers: {"
    ∷ "    Authorization: 'Bearer YOUR_API_KEY',"
    ∷ "    'Content-Type': 'application/json'"
    ∷ "  },"
    ∷ ("  body: JSON.stringify(" ++ payload slug ++ ")")
    ∷ "});"
    ∷ "const body = await response.json();"
    ∷ "if (!response.ok) throw new Error(body.error || 'Notification failed');"
    ∷ "console.log(body.notification_id);"
    ∷ [])

unfoldable pub node_example : String → String → String
node_example url slug = lines (
    "import fetch from 'node-fetch';"
    ∷ ""
    ∷ "const controller = new AbortController();"
    ∷ "setTimeout(() => controller.abort(), 10000);"
    ∷ ""
    ∷ ("const response = await fetch('" ++ url ++ "', {")
    ∷ "  method: 'POST',"
    ∷ "  signal: controller.signal,"
    ∷ "  headers: { Authorization: 'Bearer YOUR_API_KEY', 'Content-Type': 'application/json' },"
    ∷ ("  body: JSON.stringify(" ++ payload slug ++ ")")
    ∷ "});"
    ∷ "console.log(response.status, await response.json());"
    ∷ [])

unfoldable pub php_example : String → String → String
php_example url slug = lines (
    "<?php"
    ∷ ("$payload = " ++ php_array_payload slug ++ ";")
    ∷ ("$ch = curl_init('" ++ url ++ "');")
    ∷ "curl_setopt_array($ch, ["
    ∷ "  CURLOPT_POST => true,"
    ∷ "  CURLOPT_HTTPHEADER => ['Authorization: Bearer YOUR_API_KEY', 'Content-Type: application/json'],"
    ∷ "  CURLOPT_POSTFIELDS => json_encode($payload),"
    ∷ "  CURLOPT_RETURNTRANSFER => true,"
    ∷ "  CURLOPT_TIMEOUT => 10,"
    ∷ "]);"
    ∷ "$body = curl_exec($ch);"
    ∷ "$status = curl_getinfo($ch, CURLINFO_HTTP_CODE);"
    ∷ "curl_close($ch);"
    ∷ "echo $status . PHP_EOL . $body;"
    ∷ [])

unfoldable pub laravel_example : String → String → String
laravel_example url slug = lines (
    "use Illuminate\\Support\\Facades\\Http;"
    ∷ ""
    ∷ "$response = Http::timeout(10)"
    ∷ "    ->withToken('YOUR_API_KEY')"
    ∷ ("    ->post('" ++ url ++ "', " ++ php_array_payload slug ++ ");")
    ∷ ""
    ∷ "if ($response->failed()) {"
    ∷ "    throw new RuntimeException($response->body());"
    ∷ "}"
    ∷ ""
    ∷ "$notificationId = $response->json('notification_id');"
    ∷ [])

unfoldable pub python_example : String → String → String
python_example url slug = lines (
    "import requests"
    ∷ ""
    ∷ ("payload = " ++ python_payload slug)
    ∷ "response = requests.post("
    ∷ ("    '" ++ url ++ "',")
    ∷ "    headers={'Authorization': 'Bearer YOUR_API_KEY', 'Content-Type': 'application/json'},"
    ∷ "    json=payload,"
    ∷ "    timeout=10,"
    ∷ ")"
    ∷ "response.raise_for_status()"
    ∷ "print(response.json()['notification_id'])"
    ∷ [])

unfoldable pub go_example : String → String → String
go_example url slug = lines (
    "package main"
    ∷ ""
    ∷ "import ("
    ∷ "  \"bytes\""
    ∷ "  \"context\""
    ∷ "  \"fmt\""
    ∷ "  \"net/http\""
    ∷ "  \"time\""
    ∷ ")"
    ∷ ""
    ∷ "func main() {"
    ∷ ("  body := []byte(`" ++ payload slug ++ "`)")
    ∷ "  ctx, cancel := context.WithTimeout(context.Background(), 10*time.Second)"
    ∷ "  defer cancel()"
    ∷ ("  req, _ := http.NewRequestWithContext(ctx, http.MethodPost, \"" ++ url
        ++ "\", bytes.NewReader(body))")
    ∷ "  req.Header.Set(\"Authorization\", \"Bearer YOUR_API_KEY\")"
    ∷ "  req.Header.Set(\"Content-Type\", \"application/json\")"
    ∷ "  resp, err := http.DefaultClient.Do(req)"
    ∷ "  if err != nil { panic(err) }"
    ∷ "  defer resp.Body.Close()"
    ∷ "  fmt.Println(resp.Status)"
    ∷ "}"
    ∷ [])

-- `buildExamples`, of the base address of the API and the slug.
unfoldable pub build_examples : String → String → Dict String
unfolding curl_example javascript_example node_example php_example laravel_example python_example
    go_example payload php_array_payload python_payload lines
build_examples api_base_url slug =
    let url = api_base_url ++ "/notifications" in
    ("curl", curl_example url slug)
    ∷ ("JavaScript", javascript_example url slug)
    ∷ ("Node", node_example url slug)
    ∷ ("PHP", php_example url slug)
    ∷ ("Laravel", laravel_example url slug)
    ∷ ("Python", python_example url slug)
    ∷ ("Go", go_example url slug)
    ∷ []
