-- ===== src/Inotify/Startup/Opened.antt =====
-- The descriptors of an Inotify_module.
use pet_project.Base.{
  ℕ, ◌≡◌, refl, Bool, true, false, some, List, [], ◌∷◌, ◌++◌, if◌then◌else◌, arith, ◌||◌,
}
use pet_project.Base.Text.{Text, lit}
use pet_project.Inotify.{make_record}
use pet_project.Inotify.Startup.{
  SysResult, gives, fails, Surroundings, Module, open_inotify, create_inotify, folder_is_there,
  with_logger, construct_with, set_folder, Call, inotify_rm_watch, close, destruct,
}

-- The calls that give back what the two calls of inotify have given.
abbrev pub closing : SysResult → SysResult → List Call
closing (fails _) _ = []
closing (gives fd) (fails _) = close fd ∷ []
closing (gives fd) (gives wd) = inotify_rm_watch fd wd ∷ close fd ∷ []

abbrev pub has_started : SysResult → SysResult → Bool
has_started (gives fd) (gives wd) = true
has_started _ _ = false

abbrev pub record_of : Bool → Text
record_of started = if started then lit "Inotify started" else lit "Inotify failed to start"

-- The module that is made for a folder works, and says so in the log if there is a logger, if and only
-- if both calls of inotify succeed; and whatever they give, its destructor gives it back.
pub construct_with-Opened :
    (e : Surroundings) (folder : Text) (logger_started : Bool)
    → let m = construct_with e folder logger_started in
      let started = has_started e.inotify_init (e.inotify_add_watch folder) in
      (m.watcher.if_success ≡ started)
      × (m.watcher.log ≡ (if logger_started then record_of started ∷ [] else []))
      × ((destruct m).0 ≡ closing e.inotify_init (e.inotify_add_watch folder))
unfolding construct_with create_inotify open_inotify make_record destruct
construct_with-Opened e folder logger_started = ground arith

-- If set_folder is called on a module that works, and the folder it had until then exists, the module
-- goes on saying that it works and logs that it has started, whatever the calls of inotify give for
-- the new folder; and if there is a new inotify instance, the destructor gives back that one and its
-- watch only, and not the descriptors that the module had before.
pub set_folder_success :
    (e : Surroundings) (folder : Text) (add_logger : Bool) (m : Module)
    → e.exists m.watcher.folder ≡ true
    → m.watcher.if_success ≡ true
    → (m' : Module) × (set_folder e folder add_logger m ≡ some m')
      × (m'.watcher.folder ≡ folder)
      × (m'.watcher.if_success ≡ true)
      × (m'.watcher.log ≡ (
          if add_logger || m.watcher.has_logger
          then m.watcher.log ++ lit "Inotify started" ∷ []
          else m.watcher.log))
      × ((fd : ℕ)
          → e.inotify_init ≡ gives fd
          → (destruct m').0 ≡ closing e.inotify_init (e.inotify_add_watch folder))
unfolding set_folder folder_is_there create_inotify open_inotify make_record destruct
set_folder_success e folder add_logger m there works =
    let moved : Module = record m { watcher = record m.watcher { folder = folder } } in
    let m' = create_inotify e (if add_logger then with_logger true moved else moved) in
    (m', rw there refl, ground arith, ground arith, ground arith, λ fd h. ground arith)
