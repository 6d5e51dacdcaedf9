-- ===== src/Lib.antt =====
-- Miniverse backend: a server that lets its users create Minecraft servers, "miniverses", and run
-- them in Docker containers. This library models the core of the Python package `app`.
--
-- The parts and the files that model them:
--   Role               app/enums/role.py: the enumeration and its comparisons
--   Models             app/models: the rows of the four tables, and what `User` reads off them
--   Accounts           app/services/user_service.py (Accounts/Service), app/services/auth_service.py
--                      (Accounts/Auth) and app/api/v1/users.py (Accounts/Api): the requests about
--                      accounts, from the verified token to the committed tables (`serve`)
--   Version            app/services/minecraft_service.py: the regular expressions as scanners
--                      (Version/Scan, Version/Grammar) and the comparison (Version/Compare)
--   Minecraft          the catalogue of versions in app/services/minecraft_service.py,
--                      app/schemas/minecraft.py and app/api/v1/minecraft.py
--   Files              app/services/files_service.py: `pathlib` (Files/Path), a disk (Files/Disk), the
--                      free names (Files/Free), the operations (Files/Service), archives
--                      (Files/Archives), download manifests (Files/Quoting, Files/Download), and
--                      app/api/v1/files.py (Files/Api, Files/Routes)
--   Settings, Events   app/core/config.py, app/events/miniverse_event.py
--   Json, Mods         app/schemas/mods.py (Mods/Schema, Mods/Decoding, with the documents of
--                      Mods/Encoding), app/services/mods_service.py (Mods/Facets, Mods/Queries,
--                      Mods/Service, Mods/Updates) and app/api/v1/mods.py (Mods/Api)
--   Miniverses         app/services/miniverse_service.py (Miniverses/Setup, Miniverses/Lifecycle,
--                      Miniverses/Update, Miniverses/Upgrade), app/services/docker_service.py
--                      (Miniverses/Docker), app/services/proxy_service.py (Miniverses/Proxy),
--                      app/api/v1/miniverses.py (Miniverses/Api, Miniverses/Changes) and the
--                      start-up of app/main.py (Miniverses/Startup), over the session, the
--                      committed tables, the published events, a disk and a host
--                      (Miniverses/World)
--   Players            app/services/connexion (Players/Store, Players/Router) and the webhook of
--                      app/managers/ServerStatusManager.py (Players/Webhook)
--   Connection         app/services/rpc_service.py and the task of
--                      app/services/connexion/WebSocketMiniverseService.py
--   Management         what that service asks and is told, over the lists of
--                      app/services/connexion/BaseMiniverseService.py: the documents of
--                      app/schemas/player.py (Management/Messages), the lists
--                      (Management/Service), the notifications (Management/Handlers) and the
--                      requests about a player (Management/Actions); the deletion of a cache and of
--                      a service (Management/Cache)
--   Channel            app/api/v1/websockets.py: the delivery of events, the first event with its
--                      schemas (Channel/Initial), a session (Channel/Session) and the console
--                      (Channel/Console)
--   Migrations         alembic/versions, over a model of database schemas (Migrations/Schema), and the
--                      tables that app/models declares (Migrations/Declared)
--   Base               shared tests, lists, texts and calls that may raise
-- The other files of each directory hold theorems, and its `Tests` runs them on small data.
--
-- How the code is rendered. A function that may raise is an `Action S A = S → Result A × S`: the state
-- comes back after an exception too. The exceptions are the constructors of `Error`. A `str` is the
-- list of its code points, the content of a file the list of its bytes. The database compares texts
-- exactly, as with a binary collation; MySQL's default ignores case. A table is the list of its rows
-- in the order of insertion, and a foreign key with a cascade removes the rows that refer to what is
-- deleted. What stands outside the program (the Docker daemon, HTTP, identifiers, the serializers of
-- JSON and TOML), and, for the miniverse services, the controllers of running servers is a field of
-- the record `Host`, mostly a function of the host's state that may change it; a mod's row and a
-- miniverse's row are found by their id, as the session does for an object. The reader and the writer
-- of zip archives are arguments, and so is what an endless `shutil.copytree` has made when it is
-- stopped. The catalogue of Minecraft versions is an argument of
-- `compare_versions`: the answer of the call that fetches it. The values in Modrinth's
-- answers and in a management server's are read at their documented types, null included where it is
-- documented, so that an answer of another type is an error where it is read; instants are natural
-- numbers.
--
-- Bounds and fuel. The loop of `change_path_name_if_exists` runs on fuel, one more than the disk has
-- entries, which is enough since the numbered names differ. Python's integers are unbounded, and the
-- version numbers are natural numbers here.
--
-- Not modelled: the parts of the Docker client that list, measure or stream, symbolic links, the
-- wiring of the framework, logging and the response caches, alembic's environment, and what happens
-- between the awaits of one handler, apart from the connection to a management server.
pub mod Base
pub mod Role
pub mod Models
pub mod Accounts
pub mod Version
pub mod Json
pub mod Mods
pub mod Settings
pub mod Files
pub mod Events
pub mod Miniverses
pub mod Players
pub mod Connection
pub mod Channel
pub mod Management
pub mod Minecraft
pub mod Migrations
