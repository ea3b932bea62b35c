-- ===== src/Tasks/Archive/Index.antt =====
-- The index of the archive (src/database/daos/file_index.py): each row names a content that the
-- archive has, with the hash of the row.
use funasr_api.Prelude.{
  ◌≡◌, subst, String, inl, inr, none, some, List, [], ◌∷◌, arith, All, All-map, Bool-cases,
}
use funasr_api.Prelude.Equality.{◌==◌, string_eq}
use funasr_api.Tasks.Effects.{returned}
use funasr_api.Tasks.Files.{S3File, BackupStore, Platform, content_at}
use funasr_api.Tasks.Archive.{get_by_hash}

-- Under the key of the row lies a content with its hash.
abbrev pub IsBacked : (String → String) → List (String × String) → S3File → Type 0
IsBacked sha256 archive f =
    (c : String) × (content_at f.s3_key archive ≡ some c) × (sha256 c ≡ f.file_sha256)

abbrev pub IndexIsSound : (String → String) → List (String × String) → List S3File → Type 0
IndexIsSound sha256 archive index = All (IsBacked sha256 archive) index

-- The store gives out a key that the archive does not have yet (it holds a random UUID).
abbrev pub KeyIsNew : BackupStore → List (String × String) → Type 0
KeyIsNew s archive = (key : String) → s.backing_up ≡ returned key → content_at key archive ≡ none

abbrev pub KeysAreNew : Platform → List (String × String) → Type 0
KeysAreNew env archive = (s : BackupStore) → env.store ≡ some s → KeyIsNew s archive

-- No two contents have one hash.
abbrev pub HashIsInjective : Platform → Type 0
HashIsInjective env = (c d : String) → env.sha256 c ≡ env.sha256 d → c ≡ d

pub content_at_new :
    (key k : String) (c d : String) (archive : List (String × String))
    → content_at key archive ≡ none
    → content_at k archive ≡ some d
    → content_at k ((key, c) ∷ archive) ≡ some d
unfolding content_at
content_at_new key k c d archive new there = ground (arith, string_eq.beq_iff key k)

pub content_at_here :
    (key c : String) (archive : List (String × String))
    → content_at key ((key, c) ∷ archive) ≡ some c
unfolding content_at
content_at_here key c archive = ground (arith, string_eq.beq_iff key key)

pub IndexIsSound-new :
    (sha256 : String → String) (key c : String) (archive : List (String × String))
    (index : List S3File)
    → content_at key archive ≡ none
    → IndexIsSound sha256 archive index
    → IndexIsSound sha256 ((key, c) ∷ archive) index
IndexIsSound-new sha256 key c archive index new =
    All-map _ _ index
      λ f (d, there, hash). (d, content_at_new key f.s3_key c d archive new there, hash)

pub get_by_hash-IsBacked :
    (sha256 : String → String) (archive : List (String × String)) (h : String) (index : List S3File)
    (f : S3File)
    → IndexIsSound sha256 archive index
    → get_by_hash h index ≡ some f
    → IsBacked sha256 archive f × (f.file_sha256 ≡ h)
unfolding get_by_hash
get_by_hash-IsBacked sha256 archive h [] f sound e = cc
get_by_hash-IsBacked sha256 archive h (g ∷ gs) f sound e = elim (Bool-cases (g.file_sha256 == h)) [
  | inl here ↦
      let same : g ≡ f = cc (rw here at e) in
      subst (λ x. IsBacked sha256 archive x × (x.file_sha256 ≡ h)) same
        (sound.0, (string_eq.beq_iff g.file_sha256 h).0 here)
  | inr apart ↦ get_by_hash-IsBacked sha256 archive h gs f sound.1 (rw apart at e)
]
