-- ===== src/Files.antt =====
-- The files of a miniverse: app/services/files_service.py. `Path` is the part of `pathlib` that it
-- uses, `Disk` a file system, `Free` the choice of a free name, `Service` the operations, `Archives` the
-- archives, `Calls` what other services do on the disk, `Quoting` and `Download` the manifests of
-- downloads; app/api/v1/files.py is `Api` and `Routes`.
pub mod Path
pub mod Disk
pub mod Free
pub mod Naming
pub mod Safety
pub mod Service
pub mod Calls
pub mod Archives
pub mod Confined
pub mod Api
pub mod Requests
pub mod Adding
pub mod Copying
pub mod Routes
pub mod Quoting
pub mod Download
pub mod Downloads
pub mod Forging
pub mod Reach
pub mod Uploading
pub mod UploadTests
pub mod DownloadTests
pub mod Staying
pub mod Extraction
pub mod SingleFile
pub mod Reading
pub mod Tests
pub mod ArchiveTests
