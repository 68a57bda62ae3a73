-- ===== src/Sniffer/Tests.antt =====
-- A short stream under `StreamUsageSniffer` of unify_llm/monitor.py.
use unify_llm.Prelude.{◌≡◌, none, some, List, [], ◌∷◌}
use unify_llm.Sniffer.{
  Chunk, message_start, message_delta, other_event, Usage, raised_to, absorb_all,
}
use unify_llm.Prelude.{String, Option, if◌then◌else◌, arith, refl}
use unify_llm.Prelude.Text.{str_eq}
use unify_llm.Sniffer.Feed.{feed_all}
use unify_llm.Sniffer.Chunks.{cut_anywhere}
use unify_llm.Sniffer.Peak.{peak, absorb_all-peak}

abbrev nothing : Usage
nothing = record { prompt = 0; completion = 0 }

abbrev stream : List Chunk
stream =
    message_start (record {
      prompt_tokens = none;
      completion_tokens = none;
      input_tokens = some 25;
      output_tokens = some 1;
    })
    ∷ other_event
    ∷ message_delta (record {
      prompt_tokens = none;
      completion_tokens = none;
      input_tokens = none;
      output_tokens = some 15;
    })
    ∷ []

absorb_all-peak_example : absorb_all stream nothing ≡ raised_to (peak stream) nothing
absorb_all-peak_example = absorb_all-peak stream nothing

-- `json.loads` on the one payload `{}`
abbrev loads : String → Option Chunk
loads payload = if str_eq payload "{}" then some other_event else none

cut_anywhere_example :
    feed_all loads ("data: {}\nda" ∷ "ta: {" ∷ "}\n" ∷ []) (record { usage = nothing; buf = "" })
    ≡ feed_all loads ("data: {}\ndata: {}\n" ∷ []) (record { usage = nothing; buf = "" })
cut_anywhere_example =
    cut_anywhere loads "data: {}\nda" "data: {}\ndata: {}\n" ("ta: {" ∷ "}\n" ∷ []) []
      (record { usage = nothing; buf = "" }) refl (omega arith)
