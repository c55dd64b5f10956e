-- ===== src/Exposure/Records/Laws.antt =====
-- Files that are added to a directory of the ledger, which keeps all it holds.
use domain_eval_weave.Base.{◌≡◌, String, none, some, ◌∷◌, eq_refl, arith}
use domain_eval_weave.Exposure.Records.{Entry, Directory, file_at}

-- A directory that has every file of an earlier one, unchanged.
abbrev pub Grows : Directory → Directory → Type 0
Grows before after =
    (name : String) (file : String × Entry)
    → file_at before name ≡ some file
    → file_at after name ≡ some file

pub Grows-cons :
    (added : String × Entry) (directory : Directory) → Grows directory (added ∷ directory)
Grows-cons added directory name file h = ground arith

pub file_at-cons :
    (name : String) (entry : Entry) (directory : Directory)
    → file_at directory name ≡ none
    → file_at ((name, entry) ∷ directory) name ≡ some (name, entry)
file_at-cons name entry directory h = ground (arith, eq_refl name)
