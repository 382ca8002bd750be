-- ===== src/Server/Work/Readers.antt =====
-- The commands that only read.
use student_management_syste.Prelude.{Bytes, codes}
use student_management_syste.Server.Session.{Session}

pub data IsReader : Bytes → Type 0 where
  checkhomework : IsReader (codes "checkhomework")
  checkscoreandcomment : IsReader (codes "checkscoreandcomment")
  checkassignment : IsReader (codes "checkassignment")
  listcourse : IsReader (codes "listcourse")
  listhomework : IsReader (codes "listhomework")
  listcourseuser : IsReader (codes "listcourseuser")
  listgroupuser : IsReader (codes "listgroupuser")
  checklog : IsReader (codes "checklog")
