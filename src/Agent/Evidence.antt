-- ===== src/Agent/Evidence.antt =====
-- valid_evidence of src/incidentpilot/agent/evidence.py. `content_hash` (SHA-256 of the JSON) is a
-- parameter. An item of evidence is a record of the keys that the graph's nodes give it.
pub mod Valid
use incidentpilot.Base.{
  ℕ, String, ◌≡◌, Bool, true, false, ◌&&◌, ◌||◌, not, Option, none, some, List, [], ◌∷◌, ◌==◌,
  string_eq, nat_eq, if◌then◌else◌,
}
use incidentpilot.Json.{Json, obj, Dict, size, flag, json_beq}
use incidentpilot.Enums.{ToolCallStatus, call_status_eq, contains}
use incidentpilot.Tools.Gateway.{ToolResult}

pub record Evidence : Type 0 where
  pub evidence_id : String
  pub run_id : String
  pub source : String
  pub source_type : String
  pub tool_call_id : String
  pub content : String
  pub summary : String
  pub hash : String
  pub result : Dict

abbrev pub succeeded_as : String → ToolResult → Bool
succeeded_as id call = call.status == ToolCallStatus.succeeded && call.tool_call_id == id

-- successful.get(id): of two calls with one identifier the later one is in the dict.
abbrev pub successful : List ToolResult → String → Option ToolResult
successful [] id = none
successful (call ∷ calls) id = elim (successful calls id) [
  | some later ↦ some later
  | none ↦ if succeeded_as id call then some call else none
]

module _ (content_hash : Dict → String) where
  -- The tests on an item, given its call.
  abbrev pub backed_by : String → Evidence → Option ToolResult → Bool
  backed_by run_id item none = false
  backed_by run_id item (some call) =
      item.run_id == run_id
      && (not (size item.result == 0)
          && (json_beq (obj item.result) call.output
              && (item.hash == content_hash item.result
                  && not (
                      flag "error" item.result
                      || (flag "partial" item.result || flag "truncated" item.result)))))

  abbrev pub acceptable : List ToolResult → String → Evidence → Bool
  acceptable calls run_id item = backed_by run_id item (successful calls item.tool_call_id)

  -- The loop, with the digests seen so far.
  abbrev pub valid_from :
      List ToolResult → String → (seen : List String) → List Evidence → List Evidence
  valid_from calls run_id seen [] = []
  valid_from calls run_id seen (item ∷ items) =
      if acceptable calls run_id item && not (contains (content_hash item.result) seen)
      then item ∷ valid_from calls run_id (content_hash item.result ∷ seen) items
      else valid_from calls run_id seen items

  unfoldable pub valid_evidence : List Evidence → List ToolResult → String → List Evidence
  valid_evidence evidence calls run_id = valid_from calls run_id [] evidence
