-- ===== src/AgentDsl/Codegen/Templates.antt =====
-- The templates of gateway/agentdsl.py: one client stub for each language.
use agent_features.Common.{List, [], ◌∷◌, ◌++◌}
use agent_features.Common.Text.{Text, codes}

-- the lines of a template, each of them ended
lines : List Text → Text
lines [] = []
lines (l ∷ ls) = l ++ b'\n' ∷ lines ls

unfoldable pub js_template : Text
unfolding lines
js_template = lines (
    codes "// Generated from __NAME__.agent.next — do not edit by hand."
    ∷ codes "// Agent __NAME__ — __DESC__"
    ∷ codes "export async function __CAMEL__(input, { baseUrl = \"http://localhost:8000\" } = {}) {"
    ∷ codes "  // input fields: __FIELDS__"
    ∷ codes "  const res = await fetch(`${baseUrl}/composites/__NAME__/invoke`, {"
    ∷ codes "    method: \"POST\","
    ∷ codes "    headers: { \"content-type\": \"application/json\" },"
    ∷ codes "    body: JSON.stringify({ input }),"
    ∷ codes "  });"
    ∷ codes "  if (!res.ok) throw new Error(`agent __NAME__ failed: ${res.status}`);"
    ∷ codes "  const data = await res.json();"
    ∷ codes "  if (data.error) throw new Error(data.error);"
    ∷ codes "  return data.output; // __OUTS__"
    ∷ codes "}"
    ∷ [])

unfoldable pub ts_template : Text
unfolding lines
ts_template = lines (
    codes "// Generated from __NAME__.agent.next — do not edit by hand."
    ∷ codes "// Agent __NAME__ — __DESC__"
    ∷ codes "export interface __PASCAL__Input { __TSFIELDS__ }"
    ∷ []
    ∷ codes "export async function __CAMEL__("
    ∷ codes "  input: __PASCAL__Input,"
    ∷ codes "  baseUrl = \"http://localhost:8000\","
    ∷ codes "): Promise<Record<string, unknown>> {"
    ∷ codes "  const res = await fetch(`${baseUrl}/composites/__NAME__/invoke`, {"
    ∷ codes "    method: \"POST\","
    ∷ codes "    headers: { \"content-type\": \"application/json\" },"
    ∷ codes "    body: JSON.stringify({ input }),"
    ∷ codes "  });"
    ∷ codes "  if (!res.ok) throw new Error(`agent __NAME__ failed: ${res.status}`);"
    ∷ codes "  const data = await res.json();"
    ∷ codes "  if (data.error) throw new Error(data.error);"
    ∷ codes "  return data.output; // __OUTS__"
    ∷ codes "}"
    ∷ [])

unfoldable pub go_template : Text
unfolding lines
go_template = lines (
    codes "// Generated from __NAME__.agent.next — do not edit by hand."
    ∷ codes "// Agent __NAME__ — __DESC__"
    ∷ codes "package agents"
    ∷ []
    ∷ codes "import ("
    ∷ codes "\t\"bytes\""
    ∷ codes "\t\"encoding/json\""
    ∷ codes "\t\"fmt\""
    ∷ codes "\t\"net/http\""
    ∷ codes ")"
    ∷ []
    ∷ codes "// __PASCAL__Input is the input for the __NAME__ agent."
    ∷ codes "type __PASCAL__Input struct {"
    ∷ codes "__GOFIELDS__"
    ∷ codes "}"
    ∷ []
    ∷ codes "// __PASCAL__ invokes the __NAME__ agent on the gateway at baseURL."
    ∷ codes "// Returns the agent output (__OUTS__)."
    ∷ codes "func __PASCAL__(baseURL string, in __PASCAL__Input) (map[string]any, error) {"
    ∷ codes "\tbody, err := json.Marshal(map[string]any{\"input\": in})"
    ∷ codes "\tif err != nil {"
    ∷ codes "\t\treturn nil, err"
    ∷ codes "\t}"
    ∷ codes
        "\tresp, err := http.Post(baseURL+\"/composites/__NAME__/invoke\", \"application/json\", bytes.NewReader(body))"
    ∷ codes "\tif err != nil {"
    ∷ codes "\t\treturn nil, err"
    ∷ codes "\t}"
    ∷ codes "\tdefer resp.Body.Close()"
    ∷ codes "\tvar out struct {"
    ∷ codes "\t\tOutput map[string]any `json:\"output\"`"
    ∷ codes "\t\tError  string         `json:\"error\"`"
    ∷ codes "\t}"
    ∷ codes "\tif err := json.NewDecoder(resp.Body).Decode(&out); err != nil {"
    ∷ codes "\t\treturn nil, err"
    ∷ codes "\t}"
    ∷ codes "\tif out.Error != \"\" {"
    ∷ codes "\t\treturn nil, fmt.Errorf(\"agent __NAME__: %s\", out.Error)"
    ∷ codes "\t}"
    ∷ codes "\treturn out.Output, nil"
    ∷ codes "}"
    ∷ [])

unfoldable pub rust_template : Text
unfolding lines
rust_template = lines (
    codes "// Generated from __NAME__.agent.next — do not edit by hand."
    ∷ codes "// Agent __NAME__ — __DESC__"
    ∷ codes "// Requires: reqwest (blocking feature), serde_json."
    ∷ codes "use serde_json::{json, Value};"
    ∷ []
    ∷ codes "/// Invoke the __NAME__ agent on the gateway at `base_url`."
    ∷ codes "/// Input fields: __RSFIELDS__ — returns the agent output (__OUTS__)."
    ∷ codes
        "pub fn __SNAKE__(base_url: &str, input: Value) -> Result<Value, Box<dyn std::error::Error>> {"
    ∷ codes "    let client = reqwest::blocking::Client::new();"
    ∷ codes "    let resp: Value = client"
    ∷ codes "        .post(format!(\"{base_url}/composites/__NAME__/invoke\"))"
    ∷ codes "        .json(&json!({ \"input\": input }))"
    ∷ codes "        .send()?"
    ∷ codes "        .json()?;"
    ∷ codes "    if let Some(err) = resp.get(\"error\").and_then(Value::as_str) {"
    ∷ codes "        return Err(err.into());"
    ∷ codes "    }"
    ∷ codes "    Ok(resp.get(\"output\").cloned().unwrap_or(Value::Null))"
    ∷ codes "}"
    ∷ [])

unfoldable pub java_template : Text
unfolding lines
java_template = lines (
    codes "// Generated from __NAME__.agent.next — do not edit by hand."
    ∷ codes "// Agent __NAME__ — __DESC__"
    ∷ codes "// Requires: com.fasterxml.jackson.databind (ObjectMapper), Java 11+ (java.net.http)."
    ∷ codes "package agents;"
    ∷ []
    ∷ codes "import com.fasterxml.jackson.databind.JsonNode;"
    ∷ codes "import com.fasterxml.jackson.databind.ObjectMapper;"
    ∷ codes "import java.net.URI;"
    ∷ codes "import java.net.http.HttpClient;"
    ∷ codes "import java.net.http.HttpRequest;"
    ∷ codes "import java.net.http.HttpResponse;"
    ∷ codes "import java.util.Map;"
    ∷ []
    ∷ codes "public final class __PASCAL__ {"
    ∷ codes "    private static final ObjectMapper MAPPER = new ObjectMapper();"
    ∷ []
    ∷ codes "    // Invoke the __NAME__ agent on the gateway at baseUrl. Input fields: __FIELDS__"
    ∷ codes "    // Returns the agent output (__OUTS__)."
    ∷ codes
        "    public static JsonNode invoke(String baseUrl, Map<String, Object> input) throws Exception {"
    ∷ codes "        byte[] body = MAPPER.writeValueAsBytes(Map.of(\"input\", input));"
    ∷ codes "        HttpRequest req = HttpRequest.newBuilder()"
    ∷ codes "                .uri(URI.create(baseUrl + \"/composites/__NAME__/invoke\"))"
    ∷ codes "                .header(\"content-type\", \"application/json\")"
    ∷ codes "                .POST(HttpRequest.BodyPublishers.ofByteArray(body))"
    ∷ codes "                .build();"
    ∷ codes "        HttpResponse<String> resp = HttpClient.newHttpClient()"
    ∷ codes "                .send(req, HttpResponse.BodyHandlers.ofString());"
    ∷ codes "        JsonNode data = MAPPER.readTree(resp.body());"
    ∷ codes "        if (data.hasNonNull(\"error\")) {"
    ∷ codes
        "            throw new RuntimeException(\"agent __NAME__: \" + data.get(\"error\").asText());"
    ∷ codes "        }"
    ∷ codes "        return data.get(\"output\");"
    ∷ codes "    }"
    ∷ codes "}"
    ∷ [])

unfoldable pub proto_template : Text
unfolding lines
proto_template = lines (
    codes "// Generated from __NAME__.agent.next — do not edit by hand."
    ∷ codes "// Agent __NAME__ — __DESC__"
    ∷ codes "syntax = \"proto3\";"
    ∷ []
    ∷ codes "package agents.__SNAKE__;"
    ∷ []
    ∷ codes "import \"google/protobuf/struct.proto\";"
    ∷ []
    ∷ codes "service __PASCAL__ {"
    ∷ codes "  // Invoke the __NAME__ agent."
    ∷ codes "  rpc Invoke(__PASCAL__Input) returns (__PASCAL__Output);"
    ∷ codes "}"
    ∷ []
    ∷ codes "message __PASCAL__Input {"
    ∷ codes "__PROTOIN__"
    ∷ codes "}"
    ∷ []
    ∷ codes "message __PASCAL__Output {"
    ∷ codes "  google.protobuf.Struct output = 1;  // __OUTS__"
    ∷ codes "}"
    ∷ [])
