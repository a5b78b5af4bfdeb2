-- ===== src/Host/Downloads/Prepare.antt =====
-- internal/host/server.go: the items and the descriptors of the blobs that a client asks for.
use rmtx.Base.{
  not, ◌||◌, Option, none, some, List, [], ◌∷◌, ◌++◌, if◌then◌else◌, is_some, Result, ok, err,
  ◌>>=◌,
}
use rmtx.Base.Dict.{Dict, lookup, insert}
use rmtx.Base.Text.{Text, text_key, is_empty}
use rmtx.Syncfs.Chunks.{BlobDescriptor}
use rmtx.Syncfs.Manifest.{Entry, file, is_kind}
use rmtx.Host.Downloads.{TransferError, DownloadItem}

-- `prepareDownloadBlobItems`: `join_path` makes the path of a file in the workspace.
unfoldable pub entries_by_hash : List Entry → Dict Text Entry → Dict Text Entry
entries_by_hash [] m = m
entries_by_hash (entry ∷ changed) m = entries_by_hash changed (
    if not (is_kind entry.kind file) || (is_empty entry.hash || is_some (lookup entry.hash m))
    then m
    else insert entry.hash entry m)

abbrev pub or_else : Option Text → Text → Text
or_else none path = path
or_else (some source) path = if is_empty source then path else source

abbrev pub known_entry : Option Entry → Result TransferError Entry
known_entry none = err TransferError.unknown_blob
known_entry (some entry) = ok entry

module _ (join_path : Text → Text) (sources : Dict Text Text) (by_hash : Dict Text Entry) where
  unfoldable pub prepare_loop :
      List Text
      → Dict Text DownloadItem
      → List BlobDescriptor
      → Result TransferError (Dict Text DownloadItem × List BlobDescriptor)
  prepare_loop [] items descriptors = ok (items, descriptors)
  prepare_loop (hash ∷ hashes) items descriptors = known_entry (lookup hash by_hash) >>= (λ entry.
      prepare_loop hashes
        (insert hash
          (record {
            hash = hash;
            path = or_else (lookup hash sources) (join_path entry.path);
            size = entry.size;
          })
          items)
        (descriptors ++ (record { hash = hash; size = entry.size } ∷ [])))

unfoldable pub prepare_download :
    (Text → Text)
    → Dict Text Text
    → List Entry
    → List Text
    → Result TransferError (Dict Text DownloadItem × List BlobDescriptor)
prepare_download join_path sources changed hashes =
    prepare_loop join_path sources (entries_by_hash changed []) hashes [] []
