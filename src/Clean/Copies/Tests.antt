-- ===== src/Clean/Copies/Tests.antt =====
-- The choice of copies at three copies of two publications, two of them retrieved at once.
use patent_landscapes.Publication.{text}
use patent_landscapes.Base.Text.{text_eq, text_le, text_beq}
use patent_landscapes.Base.{ℕ, ◌≡◌, refl, none, some, List, [], ◌∷◌, map, nat_eq}
use patent_landscapes.Base.Dict.{put, get}
use patent_landscapes.Clean.Copies.{
  codes, Text, InputDocument, choose_copies, selected, superseded_copy,
}
use patent_landscapes.Clean.Copies.Partition.{choose_copies-perm, decided_id, id_of}
use patent_landscapes.Clean.Copies.Latest.{choose_copies-IsLatest, IsLatest}
use patent_landscapes.Patent.{PatentDocument}
use patent_landscapes.Patent.Tests.{doc}
use mathlib.Core.List.{Perm}

abbrev numbered : Text → PatentDocument → PatentDocument
numbered n d = record d {
  publication = record { country = codes "EP"; number = n; kind = some (codes "A1") };
}

-- The raw record as the one dumped field beside the family.
abbrev dump : PatentDocument → List (Text × Text)
dump d =
    (codes "raw_record_id", d.raw_record_id)
    ∷ (codes "number", d.publication.number)
    ∷ (codes "title", elim d.title [ none ↦ codes "null" | some t ↦ t ])
    ∷ []

abbrev copy : Text → ℕ → PatentDocument → InputDocument
copy id at d = record { document_id = id; retrieved_at = at; document = d }

abbrev titled : PatentDocument
titled = record doc { title = some (codes "T") }

abbrev inputs : List InputDocument
inputs =
    copy (codes "b") 5 doc
    ∷ copy (codes "c") 4 (numbered (codes "7") doc)
    ∷ copy (codes "a") 5 titled
    ∷ []

-- The copies of the American publication were retrieved at once: the greater identifier is kept,
-- and the titles are in conflict.
decisions_of_inputs :
    (choose_copies dump inputs).decisions
    ≡ record { document_id = codes "c"; publication = codes "EP7A1"; decision = selected }
      ∷ record { document_id = codes "b"; publication = codes "US10123456B2"; decision = selected }
      ∷ record {
        document_id = codes "a";
        publication = codes "US10123456B2";
        decision = superseded_copy (codes "b") 5;
      }
      ∷ []
unfolding choose_copies text_beq text text_le
decisions_of_inputs = refl

conflicting :
    (choose_copies dump inputs).found
    ≡ record {
      publication = codes "US10123456B2";
      field = codes "title";
      values = (codes "a", codes "T") ∷ (codes "b", codes "null") ∷ [];
    }
      ∷ []
unfolding choose_copies text_beq text text_le put get
conflicting = refl

choose_copies-perm_example :
    Perm (map decided_id (choose_copies dump inputs).decisions) (map id_of inputs)
choose_copies-perm_example = choose_copies-perm dump inputs

choose_copies-IsLatest_example :
    IsLatest (codes "EP7A1") inputs (get (codes "EP7A1") (choose_copies dump inputs).kept_copies)
choose_copies-IsLatest_example = choose_copies-IsLatest dump (codes "EP7A1") inputs
