-- ===== src/Upstream/Adapters/Streams.antt =====
-- The events that a streamed response is read to.
use clean_api.Base.{String, Option, none, some, List, [], ◌∷◌, ◌++◌, Result, ok, err, ◌≡◌, refl, ap}
use clean_api.Protocol.Ir.{StreamEvent}
use clean_api.Protocol.OpenAi.Parser.{Chunk, StreamParser, feed, fed, feed_lines}
use clean_api.Upstream.Adapters.{
  Stream, continued, with_text, line_text, data_lines, with_line, read_lines,
}

module _ (trim : String → String) (decode : String → Result String Chunk)
    (broken : Option String) where
  continued-fed :
      (k : StreamParser → Stream) (rest : StreamParser → List StreamEvent)
      (r : Result String (StreamParser × List StreamEvent))
      → ((p : StreamParser) → (k p).events ≡ rest p)
      → (continued trim (feed decode) k r).events ≡ fed decode rest r
  continued-fed k rest (err e) h = refl
  continued-fed k rest (ok (p, evs)) h = ap (λ xs. evs ++ xs) (h p)

  with_text-fed :
      (o : Option String) (k : StreamParser → Stream) (lines : List String) (p : StreamParser)
      → ((q : StreamParser) → (k q).events ≡ feed_lines decode lines q)
      → (with_text trim (feed decode) k o p).events ≡ feed_lines decode (with_line trim o lines) p
  unfolding feed_lines
  with_text-fed none k lines p h = h p
  with_text-fed (some t) k lines p h = continued-fed k (feed_lines decode lines) (feed decode t p) h

  -- The events that the OpenAI adapter reads of a response, whatever its lines and however the reading
  -- ends, are those that the stream parser makes of the data lines.
  pub read_lines-feed_lines :
      (lines : List String) (p : StreamParser)
      → (read_lines trim (feed decode) broken lines p).events
        ≡ feed_lines decode (data_lines trim lines) p
  unfolding read_lines data_lines feed_lines
  read_lines-feed_lines [] p = refl
  read_lines-feed_lines (line ∷ lines) p =
      with_text-fed (line_text trim (trim line)) (read_lines trim (feed decode) broken lines)
        (data_lines trim lines) p (read_lines-feed_lines lines)
