-- ===== src/Dns/Zone.antt =====
-- The zone that `refreshZone` of internal/dns/dns.go builds from the records of all projects. The
-- answers of the store, whose package is not in the repository, are given as lists.
use minicloud_platform.Prelude.{
  ◌≡◌, refl, sym, ap, subst, ◌∙◌, inl, inr, Option, none, some, List, [], ◌∷◌, ◌++◌, append-nil,
  append_assoc, arith, if◌then◌else◌, Bool-cases, Bytes, same, same_iff, Dict, lookup, insert,
  lookup-insert_self, lookup-insert_ne,
}

-- what the zone reads of a record of the store
pub record DnsRecord : Type 0 where
  pub name : Bytes
  pub ip : Bytes

-- `newZone[full].Records`
abbrev pub records_of : Bytes → Dict (List Bytes) → List Bytes
records_of full zone = elim (lookup full zone) [ none ↦ [] | some ips ↦ ips ]

module _ (to_lower : Bytes → Bytes) where
  unfoldable pub add_record : DnsRecord → Dict (List Bytes) → Dict (List Bytes)
  add_record r zone =
      let full = to_lower r.name in insert full (records_of full zone ++ r.ip ∷ []) zone

  unfoldable pub add_records : List DnsRecord → Dict (List Bytes) → Dict (List Bytes)
  unfolding add_record
  add_records [] zone = zone
  add_records (r ∷ rs) zone = add_records rs (add_record r zone)

  -- a list of records for each project
  unfoldable pub add_projects : List (List DnsRecord) → Dict (List Bytes) → Dict (List Bytes)
  unfolding add_records
  add_projects [] zone = zone
  add_projects (rs ∷ ps) zone = add_projects ps (add_records rs zone)

  -- The zone is replaced, unless the projects cannot be listed.
  unfoldable pub refresh_zone :
      Option (List (List DnsRecord)) → Dict (List Bytes) → Dict (List Bytes)
  unfolding add_projects
  refresh_zone none zone = zone
  refresh_zone (some projects) zone = add_projects projects []

  -- the addresses of the records whose name in lower case is `full`, in order
  abbrev pub named : Bytes → List DnsRecord → List Bytes
  named full [] = []
  named full (r ∷ rs) =
      let rest = named full rs in if same (to_lower r.name) full then r.ip ∷ rest else rest

  abbrev pub named_in : Bytes → List (List DnsRecord) → List Bytes
  named_in full [] = []
  named_in full (rs ∷ ps) = named full rs ++ named_in full ps

  records_of-add_record :
      (full : Bytes) (r : DnsRecord) (zone : Dict (List Bytes))
      → records_of full (add_record r zone) ≡ records_of full zone ++ named full (r ∷ [])
  unfolding add_record
  records_of-add_record full r zone = elim (Bool-cases (same (to_lower r.name) full)) [
    | inl q ↦
        let l =
          lookup-insert_self (to_lower r.name) (records_of (to_lower r.name) zone ++ r.ip ∷ [])
            zone in
        let e = (same_iff (to_lower r.name) full).0 q in
        let m = ap (λ o. elim o [ none ↦ [] | some ips ↦ ips ]) l in
        rw (q) (
          subst
            (λ k.
              records_of k
                (insert (to_lower r.name) (records_of (to_lower r.name) zone ++ r.ip ∷ []) zone)
              ≡ records_of k zone ++ r.ip ∷ [])
            e m)
    | inr q ↦
        let l =
          lookup-insert_ne (to_lower r.name) full (records_of (to_lower r.name) zone ++ r.ip ∷ [])
            zone (λ e. ground (arith, e, q, same_iff (to_lower r.name) full)) in
        rw (q, append-nil (records_of full zone))
          (ap (λ o. elim o [ none ↦ [] | some ips ↦ ips ]) l)
  ]

  records_of-add_records :
      (full : Bytes) (rs : List DnsRecord) (zone : Dict (List Bytes))
      → records_of full (add_records rs zone) ≡ records_of full zone ++ named full rs
  unfolding add_records
  records_of-add_records full [] zone = sym (append-nil (records_of full zone))
  records_of-add_records full (r ∷ rs) zone =
      records_of-add_records full rs (add_record r zone)
      ∙ ap (λ l. l ++ named full rs) (records_of-add_record full r zone)
      ∙ append_assoc (records_of full zone) (named full (r ∷ [])) (named full rs)
      ∙ ap (λ l. records_of full zone ++ l) (first full r rs)
    where
      first :
          (full : Bytes) (r : DnsRecord) (rs : List DnsRecord)
          → named full (r ∷ []) ++ named full rs ≡ named full (r ∷ rs)
      first full r rs = elim (Bool-cases (same (to_lower r.name) full)) [
        | inl q ↦ rw (q) refl
        | inr q ↦ rw (q) refl
      ]

  records_of-add_projects :
      (full : Bytes) (ps : List (List DnsRecord)) (zone : Dict (List Bytes))
      → records_of full (add_projects ps zone) ≡ records_of full zone ++ named_in full ps
  unfolding add_projects
  records_of-add_projects full [] zone = sym (append-nil (records_of full zone))
  records_of-add_projects full (rs ∷ ps) zone =
      records_of-add_projects full ps (add_records rs zone)
      ∙ ap (λ l. l ++ named_in full ps) (records_of-add_records full rs zone)
      ∙ append_assoc (records_of full zone) (named full rs) (named_in full ps)

  -- After a refresh the zone has, under each name, the addresses of the records of all projects with
  -- that name in lower case, in order, and nothing of the zone before it.
  pub records_of-refresh_zone :
      (full : Bytes) (projects : List (List DnsRecord)) (zone : Dict (List Bytes))
      → records_of full (refresh_zone (some projects) zone) ≡ named_in full projects
  unfolding refresh_zone lookup
  records_of-refresh_zone full projects zone = records_of-add_projects full projects []
