-- ===== src/Container/Order/Directory.antt =====
-- The directory of statuses in files neither runs hooks nor changes the root.
use linglong_box.Prelude.{String}
use linglong_box.Json.{Json}
use linglong_box.StatusDirectory.{write, read, remove, list}
use linglong_box.Container.Ordinary.{IsOrdinary-Always}
use linglong_box.Container.Ordinary.Directory.{write-IsOrdinary, read-IsOrdinary, remove-IsOrdinary}
use linglong_box.Container.Order.Runtime.{IsQuietDirectory}

module _ (J : Json) (dir : String) where
  pub files-IsQuietDirectory :
      IsQuietDirectory (record {
        write = write J dir;
        read = read J dir;
        remove = remove J dir;
        list = list J dir;
      })
  files-IsQuietDirectory = record {
    write = λ s. IsOrdinary-Always (write-IsOrdinary J dir s);
    read = λ id. IsOrdinary-Always (read-IsOrdinary J dir id);
    remove = λ id. IsOrdinary-Always (remove-IsOrdinary J dir id);
  }
