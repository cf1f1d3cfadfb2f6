-- ===== src/AppRegistry/Decoder.antt =====
-- pkg/appregistry/decoder.go: the unpacking of a package's blob. What gzip and tar of the standard
-- library read from a blob is a list of entries, up to the end of the archive or an error.
use operator_marketplace.Common.{
  String, ◌<>◌, ◌≡◌, refl, ap, ◌∙◌, sym, Option, none, some, ◌==◌, if◌then◌else◌, Bool-cases, inl,
  inr,
}
use operator_marketplace.Common.Errors.{Error, Result, ok, err, new_error}
use text.Mathlib.TextLemmas.{append_assoc, append-nil, nil-append}

-- The calls of Next of a tar reader: a header's type flag with what io.Copy then reads of the
-- contents, an error, or io.EOF.
pub data Archive : Type 0 where
  entry : String → String → Archive → Archive
  broken : Error → Archive
  end : Archive

-- tar.TypeReg
abbrev pub type_reg : String
type_reg = "0"

-- The loop of extractManifest, with its writer; an error of io.Copy is dropped.
unfoldable pub extract_manifest : Archive → String → Result String
extract_manifest end writer = ok writer
extract_manifest (broken e) writer =
    err (new_error ("extraction of tar ball failed - " <> e.message))
extract_manifest (entry type_flag contents rest) writer =
    extract_manifest rest (if type_flag == type_reg then writer <> contents else writer)

-- Decode, over the opening of the gzip stream.
unfoldable pub decode : (String → Result Archive) → String → Result String
unfolding extract_manifest
decode open_blob encoded = elim (open_blob encoded) [
  | err e ↦ err e
  | ok archive ↦ extract_manifest archive ""
]

-- The contents of the regular files, one after the other.
abbrev pub contents_of : Archive → String
contents_of end = ""
contents_of (broken e) = ""
contents_of (entry type_flag contents rest) =
    let following = contents_of rest in
    if type_flag == type_reg then contents <> following else following

abbrev pub error_of : Archive → Option Error
error_of end = none
error_of (broken e) = some e
error_of (entry type_flag contents rest) = error_of rest

abbrev pub extracted : Option Error → String → Result String
extracted none text = ok text
extracted (some e) text = err (new_error ("extraction of tar ball failed - " <> e.message))

extract_manifest_from :
    (archive : Archive) (writer : String)
    → extract_manifest archive writer ≡ extracted (error_of archive) (writer <> contents_of archive)
unfolding extract_manifest
extract_manifest_from end writer = ap ok (sym (append-nil writer))
extract_manifest_from (broken e) writer = refl
extract_manifest_from (entry type_flag contents rest) writer =
    elim (Bool-cases (type_flag == type_reg)) [
      | inl e ↦ rw e (
          extract_manifest_from rest (writer <> contents)
          ∙ ap (extracted (error_of rest)) (append_assoc writer contents (contents_of rest)))
      | inr e ↦ rw e (extract_manifest_from rest writer)
    ]

-- A blob whose archive reads without an error decodes to the contents of its regular files, one
-- after the other; else the decoding fails with the error of the archive.
pub decode_lem :
    (open_blob : String → Result Archive) (encoded : String) (archive : Archive)
    → open_blob encoded ≡ ok archive
    → decode open_blob encoded ≡ extracted (error_of archive) (contents_of archive)
unfolding decode
decode_lem open_blob encoded archive h =
    rw (h, decode)
      (extract_manifest_from archive ""
        ∙ ap (extracted (error_of archive)) (nil-append (contents_of archive)))
