-- ===== src/Dns/Server/Suffix.antt =====
-- Which names the server answers for.
use pikonode.Prelude.{
  ◌-◌, ◌≤◌, ◌≡◌, refl, sym, ◌∙◌, ◌↔◌, true, List, ◌∷◌, ◌++◌, length, take, drop, length-append,
  length-drop, take-append-drop, take-append_left, drop-append_left, arith,
}
use pikonode.Prelude.Bits.{Bytes, same_bytes_iff}
use pikonode.Dns.Server.{Server, same_labels, can_resolve}

same_labels_iff :
    (ls bs : List Bytes) → length ls ≡ length bs → (same_labels ls bs ≡ true) ↔ (ls ≡ bs)
unfolding same_labels
same_labels_iff (a ∷ ls) (b ∷ bs) h =
    ground (arith, same_bytes_iff a b, same_labels_iff ls bs (omega arith))
same_labels_iff _ _ h = ground arith

-- The number of labels in front of the suffix.
before : (front suffix : List Bytes) → length (front ++ suffix) - length suffix ≡ length front
before front suffix = rw length-append (omega arith)

can_resolve-append : (s : Server) (front : List Bytes) → can_resolve s (front ++ s.suffix) ≡ true
unfolding can_resolve
can_resolve-append s front =
    rw (before front s.suffix, drop-append_left front s.suffix)
      (ground (arith, length-append front s.suffix, same_labels_iff s.suffix s.suffix refl))

can_resolve_parts :
    (s : Server) (labels : List Bytes)
    → can_resolve s labels ≡ true
    → (length s.suffix ≤ length labels)
      × (same_labels (drop (length labels - length s.suffix) labels) s.suffix ≡ true)
unfolding can_resolve
can_resolve_parts s labels h = ground arith

-- `canResolve` holds of a name exactly when the suffix is its end: the name is some labels followed
-- by those of the suffix.
pub can_resolve_iff :
    (s : Server) (labels : List Bytes)
    → (can_resolve s labels ≡ true) ↔ ((front : List Bytes) × (labels ≡ front ++ s.suffix))
can_resolve_iff s labels = (split, λ (front, e). rw e (can_resolve-append s front))
  where
    split : can_resolve s labels ≡ true → (front : List Bytes) × (labels ≡ front ++ s.suffix)
    split h =
        let n = length labels - length s.suffix in
        let (long, same) = can_resolve_parts s labels h in
        let end : drop n labels ≡ s.suffix =
          (same_labels_iff _ _ (length-drop n labels ∙ omega arith)).0 same in
        (take n labels, sym (take-append-drop n labels) ∙ rw end)

-- The labels handed to `Resolve` are those in front of the suffix.
pub take-front :
    (s : Server) (front : List Bytes)
    → take (length (front ++ s.suffix) - length s.suffix) (front ++ s.suffix) ≡ front
take-front s front = rw (before front s.suffix) (take-append_left front s.suffix)
