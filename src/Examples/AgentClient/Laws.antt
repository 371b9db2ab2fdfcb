-- ===== src/Examples/AgentClient/Laws.antt =====
-- The client against the gateway.
use agent_features.Common.{
  ◌≡◌, ◌≢◌, refl, ap, ◌∙◌, ◌⊎◌, inl, inr, Option, none, some, List, [], ◌∷◌, ◌++◌, map, true, false,
  ◌>>=◌,
}
use agent_features.Common.Text.{Text, codes}
use agent_features.Common.Json.{
  Json, null, int, str, arr, obj, Fields, end, field, items, arr_of, get_field, put_field,
  get_or_null,
}
use agent_features.Common.Floats.{Floats}
use agent_features.Models.{Feature, InvokeResponse}
use agent_features.Gateway.{App, State, Response, ok, http_error, server_error}
use agent_features.Gateway.Features.{invoke_feature}
use agent_features.Gateway.Compose.Laws.{request}
use agent_features.Mcp
use agent_features.Mcp.{
  Reply, response, no_response, broken, handle, dispatch, tool, err, content, invalid_params, call,
}
use agent_features.Gateway.Agents.{replied, adapter, mcp_endpoint}
use agent_features.Mcp.Agreement.{Mirrors, call-Mirrors}
use agent_features.Examples.AgentClient.{
  Printed, then_print, rpc, print_tools, calculation, result_text, print_result, invoke_one, main,
  main_tools, and_then, at_key,
}

items-arr_of : (vs : List Json) → items (arr_of vs) ≡ vs
items-arr_of [] = refl
items-arr_of (v ∷ vs) = ap (λ l. v ∷ l) (items-arr_of vs)

-- the expression of the example
abbrev pub expression : Fields
expression = field (codes "expression") (str (codes "2 * (3 + 4)")) end

module _ {fl : Floats} {W : Type 0} (app : App fl W) (dumps : Fields → Text)
    (show_value : Json → Text) (loads : Text → Option Json) where
  open fl use {Float}

  -- what the client reads of a response: a failure is an error of urlopen
  abbrev pub read_response : Response (Option Fields) → Option Json
  read_response (ok (some d)) = loads (dumps d)
  read_response (ok none) = some null
  read_response other = none

  abbrev pub endpoint_read : Option Json → State Float W → Option Json × State Float W
  endpoint_read none s = (none, s)
  endpoint_read (some message) s =
      let (r, s') = mcp_endpoint app dumps show_value message s in (read_response r, s')

  -- a request to the gateway's endpoint /mcp
  abbrev pub endpoint : (url body : Text) → State Float W → Option Json × State Float W
  endpoint url body s = endpoint_read (loads body) s

  -- the line of a feature
  abbrev pub tool_line : Feature → Text
  tool_line f = codes "  - " ++ f.manifest.name ++ codes ": " ++ f.manifest.description

  -- the last line, where there is one, and whether the client ends without an exception, against the
  -- response of the feature's route
  abbrev pub Shows : Response (InvokeResponse Float) → Printed → Type 0
  Shows (ok a) p = p ≡ ((codes "Result: " ++ dumps a.output) ∷ [], true)
  Shows (http_error status d) p =
      ((status ≡ 404) × (p ≡ ([], false)))
      ⊎ ((status ≢ 404) × ((m : Text) × (p ≡ ((codes "Result: " ++ m) ∷ [], true))))
  Shows server_error p = p ≡ ([], false)

  print-tools :
      (fs : List Feature)
      → print_tools dumps show_value endpoint (map (λ f. obj (tool f.manifest)) fs)
        ≡ (map tool_line fs, true)
  unfolding tool get_field
  print-tools [] = refl
  print-tools (f ∷ fs) = ap (then_print (tool_line f ∷ [])) (print-tools fs)

  module _ (reads : (d : Fields) → loads (dumps d) ≡ some (obj d)) where
    rpc-list :
        (s : State Float W)
        → rpc dumps show_value endpoint (codes "tools/list") none 1 s ≡ (
          some (
              obj (
                Mcp.ok (int 1) (
                  field
                    (codes "tools")
                    (arr (
                      arr_of
                        (map (λ f. obj (tool f.manifest)) (app.catalog.list none none s.world))))
                    end))),
          s,
        )
    unfolding rpc mcp_endpoint handle dispatch get_or_null tool
    rpc-list s = ap (λ o. endpoint_read o s) (reads _) ∙ ap (λ o. (o, s)) (reads _)

    rpc-call :
        (s : State Float W)
        → let (reply, w') = call (adapter app dumps show_value) (int 2) (obj calculation) s.world in
          rpc dumps show_value endpoint (codes "tools/call") (some calculation) 2 s
          ≡ (read_response (replied reply), record s { world = w' })
    unfolding rpc put_field mcp_endpoint handle dispatch get_or_null
    rpc-call s = ap (λ o. endpoint_read o s) (reads _)

    -- what the client prints of a reply
    shown-reply :
        (response : Response (InvokeResponse Float)) (reply : Reply)
        → Mirrors app dumps show_value (int 2) response reply
        → Shows response
            (print_result dumps show_value endpoint (result_text (read_response (replied reply))))
    shown-reply (ok a) reply h = rw (h, reads) (unfold get_field in refl)
    shown-reply (http_error status d) reply (inl (e, (m, h))) =
        rw (h, reads) (inl (e, (unfold get_field in refl)))
    shown-reply (http_error status d) reply (inr (e, (m, h))) =
        rw (h, reads) (inr (e, (m, (unfold get_field in refl))))
    shown-reply server_error reply h = rw h refl

    invoke_one-call :
        (s : State Float W)
        → let (reply, w') = call (adapter app dumps show_value) (int 2) (obj calculation) s.world in
          invoke_one dumps show_value endpoint s ≡ (
            then_print (codes "\nCalling calculator with expression '2 * (3 + 4)' ..." ∷ []) (
                print_result dumps show_value endpoint
                  (result_text (read_response (replied reply)))),
            record s { world = w' },
          )
    unfolding invoke_one
    invoke_one-call s = ap called (rpc-call s)
      where
        called : Option Json × State Float W → Printed × State Float W
        called (reply, w') = (
          then_print (codes "\nCalling calculator with expression '2 * (3 + 4)' ..." ∷ [])
              (print_result dumps show_value endpoint (result_text reply)),
          w',
        )

    -- the list, and what is printed behind it
    main-lists :
        (s : State Float W)
        → main dumps show_value endpoint s ≡ (
            let (p, w') = invoke_one dumps show_value endpoint s in
            (
              then_print
                  (codes "Available features (as agent tools):"
                    ∷ map tool_line (app.catalog.list none none s.world))
                  p,
              w',
            ))
    unfolding main get_field
    main-lists s =
        let tools = map (λ f. obj (tool f.manifest)) (app.catalog.list none none s.world) in
        let print_from = λ (p : Printed).
          and_then dumps show_value endpoint
            (then_print (codes "Available features (as agent tools):" ∷ []) p) s in
        ap (λ (r : Option Json × State Float W). listed_from r) (rpc-list s)
        ∙ (ap (λ l. print_from (print_tools dumps show_value endpoint l)) (items-arr_of tools)
            ∙ ap print_from (print-tools (app.catalog.list none none s.world)))
      where
        listed_from : Option Json × State Float W → Printed × State Float W
        listed_from (reply, w') =
            main_tools dumps show_value endpoint
              (reply >>= λ r. at_key (codes "result") r >>= λ v. at_key (codes "tools") v) w'

    -- A session of the client with the gateway, where json.loads reads back what json.dumps writes,
    -- and a feature that the catalogue finds as `calculator` has that name: it prints the name and
    -- the description of every listed feature, in order, then makes the call, with the effect on the
    -- world that the feature's route has, and with none on the metrics and the composites. Where the
    -- route answers with an output it prints that as JSON; where the route answers with an error
    -- other than 404 it prints a message; and where the route answers 404 or fails it ends with an
    -- exception behind the line that tells of the call.
    pub main-Session :
        (s : State Float W)
        → ((f : Feature)
            → app.catalog.get (codes "calculator") s.world ≡ some f
            → f.manifest.name ≡ codes "calculator")
        → let p = invoke_feature app (codes "calculator") (request expression) s in
          let q = main dumps show_value endpoint s in
          (q.1 ≡ record s { world = p.1.world })
          × ((last : Printed) × Shows p.0 last
              × (q.0
                  ≡ then_print
                      (codes "Available features (as agent tools):"
                        ∷ map tool_line (app.catalog.list none none s.world))
                      (then_print
                        (codes "\nCalling calculator with expression '2 * (3 + 4)' ..." ∷ [])
                        last)))
    main-Session s filed =
        let (mirrors, world) =
          call-Mirrors app dumps show_value (int 2) b'c' (codes "alculator") expression s filed in
        let way =
          main-lists s
          ∙ ap (λ (r : Printed × State Float W). (then_print listed r.0, r.1))
              (invoke_one-call s) in
        (
          ap (λ r. r.1) way ∙ ap (λ w. record s { world = w }) world,
          (_, shown-reply _ _ mirrors, ap (λ r. r.0) way),
        )
      where
        listed : List Text
        listed =
            codes "Available features (as agent tools):"
            ∷ map tool_line (app.catalog.list none none s.world)
