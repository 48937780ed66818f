-- ===== src/Receipts/Offsets.antt =====
-- The table of offsets of a receipt, as a reader follows it.
use mathlib.Core.List.{append_assoc, append-nil}
use nexium_storage_back.Shared.{
  ℕ, suc, ◌+◌, ◌*◌, ◌^◌, ◌<◌, ◌≡◌, refl, sym, List, [], ◌∷◌, ◌++◌, arith, length, take, drop,
  length-append, drop-append, take-append, ap, ◌∙◌,
}
use nexium_storage_back.Receipts.Texts.{Bytes, codes, padded}
use nexium_storage_back.Receipts.Document.{
  PdfLine, objects_of, content_of, write_objects, xref_entry, xref_entries, xref_head, trailer,
  header, body_of, build_pdf,
}
use nexium_storage_back.Receipts.Digits.{number, number-padded, length-padded, length-xref_entry}

-- The ten digits that a reader finds at the position.
abbrev number_at : Bytes → ℕ → ℕ
number_at doc p = number (take 10 (drop p doc)) 0

number_at-entry :
    (pre rest : Bytes) (n : ℕ)
    → n < 10 ^ 10
    → number_at (pre ++ (xref_entry n ++ rest)) (length pre) ≡ n
unfolding xref_entry
number_at-entry pre rest n h =
    let digits_of : Bytes = padded 10 n in
    rw (drop-append pre (xref_entry n ++ rest), append_assoc)
      (ap (λ k. number (take k (digits_of ++ (codes " 00000 n \n" ++ rest))) 0)
          (sym (length-padded n h))
        ∙ ap (λ s. number s 0) (take-append digits_of (codes " 00000 n \n" ++ rest))
        ∙ number-padded n)

-- The offsets lead to the objects.
abbrev Points : List ℕ → List Bytes → Bytes → Type 0
Points ns [] doc = Unit
Points [] (o ∷ os) doc = ⊥
Points (n ∷ ns) (o ∷ os) doc = (take (length o) (drop n doc) ≡ o) × Points ns os doc

write_objects-extends :
    (buf : Bytes) (os : List Bytes) → (tail : Bytes) × ((write_objects buf os).0 ≡ buf ++ tail)
unfolding write_objects
write_objects-extends buf [] = ([], sym (append-nil buf))
write_objects-extends buf (o ∷ os) =
    let (tail, e) = write_objects-extends (buf ++ o) os in (o ++ tail, e ∙ append_assoc buf o tail)

write_objects-Points :
    (buf : Bytes) (os : List Bytes) (more : Bytes)
    → Points (write_objects buf os).1 os ((write_objects buf os).0 ++ more)
unfolding write_objects
write_objects-Points buf [] more = tt
write_objects-Points buf (o ∷ os) more =
    let (tail, e) = write_objects-extends (buf ++ o) os in
    let shape : (write_objects (buf ++ o) os).0 ++ more ≡ buf ++ (o ++ (tail ++ more)) =
      rw e (simp append_assoc) in
    (
      rw (shape, drop-append buf (o ++ (tail ++ more))) (take-append o (tail ++ more)),
      write_objects-Points (buf ++ o) os more,
    )

abbrev AllBelow : ℕ → List ℕ → Type 0
AllBelow bound [] = Unit
AllBelow bound (n ∷ ns) = (n < bound) × AllBelow bound ns

write_objects-AllBelow :
    (bound : ℕ) (buf : Bytes) (os : List Bytes)
    → length (write_objects buf os).0 < bound
    → AllBelow bound (write_objects buf os).1
unfolding write_objects
write_objects-AllBelow bound buf [] h = tt
write_objects-AllBelow bound buf (o ∷ os) h =
    let (tail, e) = write_objects-extends (buf ++ o) os in
    (
      omega (arith, ap length e, length-append (buf ++ o) tail, length-append buf o),
      write_objects-AllBelow bound (buf ++ o) os h,
    )

length-write_objects : (buf : Bytes) (os : List Bytes) → length (write_objects buf os).1 ≡ length os
unfolding write_objects
length-write_objects buf [] = refl
length-write_objects buf (o ∷ os) = ap suc (length-write_objects (buf ++ o) os)

length-xref_entries :
    (ns : List ℕ) → AllBelow (10 ^ 10) ns → length (xref_entries ns) ≡ 20 * length ns
unfolding xref_entries
length-xref_entries [] h = refl
length-xref_entries (n ∷ ns) h =
    length-append (xref_entry n) (xref_entries ns)
    ∙ omega (arith, length-xref_entry n h.0, length-xref_entries ns h.1)

-- Each entry of the table, from the position on, leads to its object.
abbrev pub Resolves : Bytes → ℕ → List Bytes → Type 0
Resolves doc p [] = Unit
Resolves doc p (o ∷ os) =
    (take (length o) (drop (number_at doc p) doc) ≡ o) × Resolves doc (p + 20) os

next_position :
    (pre : Bytes) (n p : ℕ) → n < 10 ^ 10 → p ≡ length pre → p + 20 ≡ length (pre ++ xref_entry n)
next_position pre n p h at = omega (arith, length-append pre (xref_entry n), length-xref_entry n h)

Points-Resolves :
    (ns : List ℕ) (os : List Bytes) (pre rest doc : Bytes)
    → doc ≡ pre ++ (xref_entries ns ++ rest)
    → AllBelow (10 ^ 10) ns
    → Points ns os doc
    → (p : ℕ) → p ≡ length pre
    → Resolves doc p os
unfolding xref_entries
Points-Resolves ns [] pre rest doc e h points p at = tt
Points-Resolves [] (o ∷ os) pre rest doc e h points p at = absurd points
Points-Resolves (n ∷ ns) (o ∷ os) pre rest doc e h points p at =
    let more : Bytes = xref_entries ns ++ rest in
    let shape : doc ≡ pre ++ (xref_entry n ++ more) = e ∙ simp append_assoc in
    let here : number_at doc p ≡ n = rw (at, shape) (number_at-entry pre more n h.0) in
    (
      rw here points.0,
      Points-Resolves ns os (pre ++ xref_entry n) rest doc
          (shape ∙ sym (append_assoc pre (xref_entry n) more)) h.1 points.1 (p + 20)
          (next_position pre n p h.0 at),
    )

drop_at : (n : ℕ) (xs ys : Bytes) → n ≡ length xs → drop n (xs ++ ys) ≡ ys
drop_at n xs ys e = rw e (drop-append xs ys)

split_end : (xs ys zs end : Bytes) → xs ++ (ys ++ (zs ++ end)) ≡ (xs ++ (ys ++ zs)) ++ end
split_end xs ys zs end = simp append_assoc

six_objects : (content : Bytes) → length (objects_of content) ≡ 6
unfolding objects_of
six_objects content = refl

-- A reader that is given the position of the table finds its head there, its end after six entries,
-- and by the entries each of the six objects, where the document is below ten thousand million bytes:
-- the ten digits of an entry hold no more.
pub build_pdf-Resolves :
    (ls : List PdfLine)
    → length (build_pdf ls) < 10_000_000_000
    → let doc = build_pdf ls in
      let xref_offset = length (body_of ls).0 in
      let first = xref_offset + length xref_head in
      (take (length xref_head) (drop xref_offset doc) ≡ xref_head)
      × Resolves doc first (objects_of (content_of ls))
      × (drop (first + 20 * 6) doc ≡ trailer xref_offset)
unfolding build_pdf
build_pdf-Resolves ls h =
    let os : List Bytes = objects_of (content_of ls) in
    let buf : Bytes = (body_of ls).0 in
    let ns : List ℕ = (body_of ls).1 in
    let doc : Bytes = build_pdf ls in
    let end : Bytes = trailer (length buf) in
    let small =
      write_objects-AllBelow (10 ^ 10) header os
        (omega (arith, h, length-append buf (xref_head ++ (xref_entries ns ++ end)))) in
    (
      rw (drop-append buf (xref_head ++ (xref_entries ns ++ end)))
          (take-append xref_head (xref_entries ns ++ end)),
      Points-Resolves ns os (buf ++ xref_head) end doc (sym (append_assoc buf xref_head _)) small
          (write_objects-Points header os (xref_head ++ (xref_entries ns ++ end))) _
          (sym (length-append buf xref_head)),
      ap (drop _) (split_end buf xref_head (xref_entries ns) end)
          ∙ drop_at _ (buf ++ (xref_head ++ xref_entries ns)) end (
              omega (
                arith,
                length-append buf (xref_head ++ xref_entries ns),
                length-append xref_head (xref_entries ns),
                length-xref_entries ns small,
                length-write_objects header os,
                six_objects (content_of ls),
              )),
    )
