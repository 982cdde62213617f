-- ===== src/Container/Handshake/Directory.antt =====
-- src/linyaps_box/impl/status_directory.cpp: the directory of statuses in files uses no socket.
use linglong_box.Prelude.{String}
use linglong_box.Json.{Json}
use linglong_box.StatusDirectory.{write, read, remove, list}
use linglong_box.Container.Ordinary.{IsOrdinary-Silent}
use linglong_box.Container.Ordinary.Directory.{write-IsOrdinary, read-IsOrdinary, remove-IsOrdinary}
use linglong_box.Container.Handshake.Runtime.{IsSilentDirectory}

module _ (J : Json) (dir : String) where
  pub files-IsSilentDirectory :
      IsSilentDirectory (record {
        write = write J dir;
        read = read J dir;
        remove = remove J dir;
        list = list J dir;
      })
  files-IsSilentDirectory = record {
    write = λ s. IsOrdinary-Silent (write-IsOrdinary J dir s);
    read = λ id. IsOrdinary-Silent (read-IsOrdinary J dir id);
    remove = λ id. IsOrdinary-Silent (remove-IsOrdinary J dir id);
  }
