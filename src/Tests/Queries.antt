-- ===== src/Tests/Queries.antt =====
-- Inputs for the queries of resolvers.rs of indieweb2-bastion/graphql-dns-api/src.
use civic_connect.Prelude.{String, refl, none, List, [], ◌∷◌, take, drop, Result, ok, err}
use civic_connect.Dns.Records.{pos, DnsRecord}
use civic_connect.Dns.Queries.{Binding, number, text, Answering}
use civic_connect.Dns.Queries.Reverse.{matching, IsAnswering}
use civic_connect.Tests.Records.{keeper}

abbrev select_both : List (String × Binding) → List DnsRecord → Result String (List DnsRecord)
select_both
      ((_, number (pos limit)) ∷ (_, number (pos offset)) ∷ (_, text name) ∷ (_, text kind) ∷ [])
      store =
    ok (take limit (drop offset (matching name kind store)))
select_both _ store = err "not bound"

abbrev table_answers : Answering keeper
table_answers = record {
  select_records = λ query bindings store. select_both bindings store;
  select_count = λ query store. ok none;
  select_counts = λ query store. ok [];
}

table_answers-IsAnswering : IsAnswering keeper table_answers (λ store. store)
table_answers-IsAnswering = record { select_both = λ limit offset name kind store. refl }
