-- ===== src/Client/Server.antt =====
-- The server as the client sees it, and what it has answered for.
use xx_drive.Prelude.{true, ◌≡◌, List, ◌∷◌, Option, none, some, ◌==◌, nat_eq, bytes_eq, arith, any}
use xx_drive.Prelude.Bytes.{Bytes}
use xx_drive.Client.Sync.{Server, RemoteEntry, Answer, stale, refused, stored}

-- `Holds s t`, of a state and a content, comes about by an upload that the server accepts, and no call of
-- the client ends it.
pub record IsKeeping (server : Server) (Holds : server.State → Bytes → Type 0) : Type 0 where
  pub upload_stores :
      (s : server.State) (p text if_match : Bytes) (e : Option RemoteEntry)
      → (server.upload s p text if_match).0 ≡ stored e
      → Holds ((server.upload s p text if_match).1) text
  pub upload_keeps :
      (s : server.State) (p text if_match t : Bytes)
      → Holds s t
      → Holds ((server.upload s p text if_match).1) t
  pub download_keeps :
      (s : server.State) (p t : Bytes) → Holds s t → Holds ((server.download s p).1) t
  pub delete_keeps : (s : server.State) (p t : Bytes) → Holds s t → Holds ((server.delete s p).1) t
  pub list_keeps : (s : server.State) (p t : Bytes) → Holds s t → Holds ((server.list s p).1) t

module _ (server : Server) where
  -- The server, with a record of the contents that it has answered for: those whose upload it accepted,
  -- and those that it handed out. Its answers, and what its calls do to it, are its own.
  abbrev log_upload : Answer → Bytes → List Bytes → List Bytes
  log_upload stale text log = log
  log_upload refused text log = log
  log_upload (stored e) text log = text ∷ log

  abbrev log_download : Option Bytes → List Bytes → List Bytes
  log_download none log = log
  log_download (some text) log = text ∷ log

  abbrev pub logged : Server
  logged = record {
    State = server.State × List Bytes;
    upload = λ r p text if_match.
        let (answer, s') = server.upload r.0 p text if_match in
        (answer, (s', log_upload answer text r.1));
    download =
        λ r p. let (answer, s') = server.download r.0 p in (answer, (s', log_download answer r.1));
    delete = λ r p. let (answer, s') = server.delete r.0 p in (answer, (s', r.1));
    list = λ r p. let (answer, s') = server.list r.0 p in (answer, (s', r.1));
  }

  -- The content is one that the server has answered for.
  abbrev pub Answered : (server.State × List Bytes) → Bytes → Type 0
  Answered r t = any (λ k. k == t) (r.1) ≡ true

  upload-Answered :
      (answer : Answer) (text t : Bytes) (log : List Bytes)
      → any (λ k. k == t) log ≡ true
      → any (λ k. k == t) (log_upload answer text log) ≡ true
  upload-Answered stale text t log h = h
  upload-Answered refused text t log h = h
  upload-Answered (stored e) text t log h = ground arith

  stored-Answered :
      (answer : Answer) (text : Bytes) (log : List Bytes) (e : Option RemoteEntry)
      → answer ≡ stored e
      → any (λ k. k == text) (log_upload answer text log) ≡ true
  stored-Answered stale text log e h = absurd (ground arith)
  stored-Answered refused text log e h = absurd (ground arith)
  stored-Answered (stored f) text log e h = ground arith

  download-Answered :
      (answer : Option Bytes) (t : Bytes) (log : List Bytes)
      → any (λ k. k == t) log ≡ true
      → any (λ k. k == t) (log_download answer log) ≡ true
  download-Answered none t log h = h
  download-Answered (some text) t log h = ground arith

  -- What a server has answered for, it has answered for ever after.
  pub logged-IsKeeping : IsKeeping logged Answered
  logged-IsKeeping = record {
    upload_stores = λ r p text if_match e h.
        stored-Answered ((server.upload r.0 p text if_match).0) text (r.1) e h;
    upload_keeps = λ r p text if_match t h.
        upload-Answered ((server.upload r.0 p text if_match).0) text t (r.1) h;
    download_keeps = λ r p t h. download-Answered ((server.download r.0 p).0) t (r.1) h;
    delete_keeps = λ r p t h. h;
    list_keeps = λ r p t h. h;
  }
