-- ===== src/Cpc/Found.antt =====
-- What `search` of src/patsquire_plr/classification/cpc.py returns on a scheme that was read.
use patent_landscapes.Base.{List, nat_eq, IsIn}
use patent_landscapes.Base.Text.{Text, text_eq}
use patent_landscapes.Cpc.Scheme.{CpcEntry}
use patent_landscapes.Cpc.Search.{CpcMatch}

-- A match names an entry of the list that was searched.
abbrev IsMatchOf : List (Text × CpcEntry) → CpcMatch → Type 0
IsMatchOf es m = (e : CpcEntry) × IsIn (m.symbol, e) es
