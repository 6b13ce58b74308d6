-- ===== src/Dns/Queries/Reverse.antt =====
-- indieweb2-bastion/graphql-dns-api/src/resolvers.rs: what a reverse lookup finds.
use civic_connect.Prelude.{
  ℕ, String, ◌≡◌, ap, ◌∙◌, false, ◌&&◌, some, List, [], ◌∷◌, map, ◌==◌, if◌then◌else◌, take, drop,
  All, ok, map_err, bind-ok,
}
use civic_connect.Prelude.Text.{has_char, join, split-join}
use civic_connect.Dns.Records.{
  pos, DnsRecordType, ptr, DnsRecord, database, Surreal, reverse_parts, ip_to_reverse_name,
}
use civic_connect.Dns.Queries.{
  number, text, Answering, show_type, query_text, query_records, reverse_dns,
}

-- The records of a name and a type, in the order of the table.
abbrev pub matching : String → String → List DnsRecord → List DnsRecord
matching name kind [] = []
matching name kind (r ∷ rs) =
    let rest = matching name kind rs in
    if r.name == name && show_type r.record_type == kind then r ∷ rest else rest

-- What SurrealDB documents of a query for a name and a type, over the table of the records.
pub record IsAnswering (db : Surreal) (q : Answering db) (table : db.Store → List DnsRecord)
    : Type 0 where
  pub select_both :
      (limit offset : ℕ) (name kind : String) (store : db.Store)
      → q.select_records
          "SELECT * FROM dns_records WHERE name = $name AND type = $record_type LIMIT $limit START $offset"
          (("limit", number (pos limit))
            ∷ ("offset", number (pos offset))
            ∷ ("name", text name)
            ∷ ("record_type", text kind)
            ∷ [])
          store
        ≡ ok (take limit (drop offset (matching name kind (table store))))

module _ (db : Surreal) (q : Answering db) (table : db.Store → List DnsRecord)
    (l : IsAnswering db q table) where
  query_records_both :
      (name : String) (kind : DnsRecordType) (limit offset : ℕ) (store : db.Store)
      → query_records db q (some name) (some kind) (pos limit) (pos offset) store
        ≡ ok (take limit (drop offset (matching name (show_type kind) (table store))))
  unfolding query_records query_text
  query_records_both name kind limit offset store =
      ap (map_err database) (l.select_both limit offset name (show_type kind) store)

  -- The reverse lookup of an IPv4 address of four parts finds the first hundred records of type PTR
  -- whose name is the parts in reverse order and then in-addr and arpa, and names their values.
  pub reverse_dns-matching :
      (p0 p1 p2 p3 : String) (store : db.Store)
      → All (λ p. has_char "." p ≡ false) (p0 ∷ p1 ∷ p2 ∷ p3 ∷ [])
      → has_char ":" (join "." (p0 ∷ p1 ∷ p2 ∷ p3 ∷ [])) ≡ false
      → (let records = take 100 (
            matching
              (join "." (p3 ∷ p2 ∷ p1 ∷ p0 ∷ "in-addr" ∷ "arpa" ∷ []))
              "PTR"
              (table store)) in
          reverse_dns db q (join "." (p0 ∷ p1 ∷ p2 ∷ p3 ∷ [])) store
          ≡ ok (record {
            ip = join "." (p0 ∷ p1 ∷ p2 ∷ p3 ∷ []);
            hostnames = map (λ r. r.value) records;
            ptr_records = records;
          }))
  unfolding reverse_dns show_type ip_to_reverse_name
  reverse_dns-matching p0 p1 p2 p3 store plain v4 =
      let ip = join "." (p0 ∷ p1 ∷ p2 ∷ p3 ∷ []) in
      let reverse_name = join "." (p3 ∷ p2 ∷ p1 ∷ p0 ∷ "in-addr" ∷ "arpa" ∷ []) in
      let records = take 100 (matching reverse_name "PTR" (table store)) in
      let named : ip_to_reverse_name ip ≡ ok reverse_name =
        rw v4 (ap reverse_parts (split-join "." p0 (p1 ∷ p2 ∷ p3 ∷ []) plain)) in
      bind-ok (ip_to_reverse_name ip) _ reverse_name named
      ∙ bind-ok (query_records db q (some reverse_name) (some ptr) (pos 100) (pos 0) store) _
          records (query_records_both reverse_name ptr 100 0 store)
