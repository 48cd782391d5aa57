-- ===== src/Server/Request/Directory.antt =====
-- The whole way of a request to the server that works with a directory.
use pet_project.Base.{◌≡◌, List, [], some, none, Option, Bool, ◌>>=◌}
use pet_project.Base.Text.{Text}
use pet_project.Handler.Request.{ReqInfo}
use pet_project.Handler.Dir.{Entry, FileSystem, DirHandler}
use pet_project.Handler.Dir as Dir
use pet_project.Handler.Dir.Requested.{IsIllegal, Requested}
use pet_project.Handler.Dir.Find.{Unread}
use pet_project.Server.Request.{HttpRequest, HttpResponse, handle, Opened}
use pet_project.Server.Request.Status.{Answered}

-- Server_dir_handler as the handler of a request; it does not change.
abbrev pub serve : FileSystem → DirHandler → ReqInfo → Option (Bool × DirHandler × ReqInfo)
serve fs d r = do x ← Dir.handle fs d r; some (x.0, d, x.1)

-- The vector for a request whose target is a slash and `t`.
abbrev filled : HttpRequest → ReqInfo → Text → ReqInfo
filled req r t = record r {
  target = t;
  host = req.host;
  user_agent = req.user_agent;
  method = req.method_string;
  result = [];
  error = [];
}

-- What comes of a request for a file, for the listing `es` of the directory `path`.
abbrev pub Answer :
    DirHandler
    → List Entry
    → Text
    → (Text → Opened)
    → Option (HttpResponse × List Text × DirHandler)
    → Type 0
Answer d es target open_file none = (¬ IsIllegal target) × Unread (Requested target) es
Answer d es target open_file (some (res, told, d')) =
    (d' ≡ d) × Answered d.files_path es target open_file res
